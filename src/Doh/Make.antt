-- ===== src/Doh/Make.antt =====
-- `NewResolver` of proxy/doh/doh.go. `parse` and `atoi` are url.Parse and strconv.Atoi, `resolve` is what
-- the dialer's resolver answers. The TLS configuration and the HTTP transport are left out.
pub mod Ready
pub mod Stays
use Prim.Native.String.{String}
use text.Mathlib.Text.{◌==◌ as str_eq}
use localdns_go.Prelude.{ℕ, Bool, true, false, List, [], ◌∷◌, Result, ok, err, if◌then◌else◌}
use localdns_go.Net.Ip.{Ip}
use localdns_go.IpMap.{empty}
use localdns_go.IpMap.Valid.{adds}
use localdns_go.IpMap.Store.{Store, new_store, set_at, get, update}
use localdns_go.Doh.Query.{Resolver}

-- What the code reads of a `url.URL`.
pub record Url : Type 0 where
  pub scheme : String
  pub hostname : String
  pub port : String

pub data MakeError (E : Type 0) : Type 0 where
  callee_error : E → MakeError E
  bad_scheme : String → MakeError E
  empty_host : MakeError E
  no_ip_addresses : String → MakeError E

-- The fixed fields of a resolver, and those that change.
pub record Made : Type 0 where
  pub hostname : String
  pub port : ℕ
  pub resolver : Resolver

-- The loop over `addrs`: each is resolved and its addresses are added.
unfoldable pub add_each : (String → List Ip) → List String → ℕ → Store → Store
add_each resolve [] p m = m
add_each resolve (addr ∷ addrs) p m = add_each resolve addrs p (update (adds (resolve addr)) p m)

-- The set of the hostname in a new map, with the fallback addresses.
unfoldable pub gather : (String → List Ip) → String → List String → ℕ × Store
gather resolve hostname addrs =
    let (p, m) = get hostname (resolve hostname) new_store in (p, add_each resolve addrs p m)

module _ {E : Type 0} where
  pub checked : String → ℕ → ℕ × Store → Result (MakeError E) Made
  checked hostname port (p, m) =
      if empty (set_at p m)
      then err (no_ip_addresses hostname)
      else ok (record {
        hostname = hostname;
        port = port;
        resolver = record { ips = m; hangover_expiration = 0 };
      })

  -- What both constructors do once they have a port.
  unfoldable pub with_port :
      (String → List Ip) → String → List String → Result E ℕ → Result (MakeError E) Made
  unfolding checked
  with_port resolve hostname addrs (err e) = err (callee_error e)
  with_port resolve hostname addrs (ok port) = checked hostname port (gather resolve hostname addrs)

  -- The port of the URL, or the default one.
  unfoldable pub port_or : ℕ → (String → Result E ℕ) → String → Result E ℕ
  port_or default_port atoi port = if str_eq port "" then ok default_port else atoi port

  pub doh_of_url :
      (String → Result E ℕ)
      → (String → List Ip)
      → List String
      → Result E Url
      → Result (MakeError E) Made
  doh_of_url atoi resolve addrs (err e) = err (callee_error e)
  doh_of_url atoi resolve addrs (ok url) =
      if str_eq url.scheme "https"
      then with_port resolve url.hostname addrs (port_or 443 atoi url.port)
      else err (bad_scheme url.scheme)

  -- doh.NewResolver
  unfoldable pub new_doh_resolver :
      (String → Result E Url)
      → (String → Result E ℕ)
      → (String → List Ip)
      → String
      → List String
      → Result (MakeError E) Made
  unfolding doh_of_url
  new_doh_resolver parse atoi resolve raw_url addrs = doh_of_url atoi resolve addrs (parse raw_url)
