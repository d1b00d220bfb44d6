-- ===== src/Socket.antt =====
-- common/socket/protect.go: the choice of a system resolver. `split_host_port`, `parse_ip` and `join` are
-- net.SplitHostPort, net.ParseIP and net.JoinHostPort, `split` is strings.Split at the commas.
pub mod Family
pub mod Protect
use Prim.Native.String.{String}
use text.Mathlib.Text.{◌==◌ as str_eq}
use localdns_go.Prelude.{
  ℕ, Bool, true, false, not, ◌&&◌, ◌||◌, Option, none, some, List, [], ◌∷◌, length, take, ◌==◌,
  if◌then◌else◌, Result, ok, err,
}
use localdns_go.Net.Ip.{Ip, v4_in_v6_prefix, bytes_equal}

-- `ip.To4() != nil`
unfoldable pub is_v4 : Ip → Bool
is_v4 ip = length ip == 4 || (length ip == 16 && bytes_equal (take 12 ip) v4_in_v6_prefix)

abbrev pub same_bool : Bool → Bool → Bool
same_bool true b = b
same_bool false b = not b

pub data ResolverError (E : Type 0) : Type 0 where
  no_resolvers : ResolverError E
  bad_address : E → ResolverError E
  bad_ip : String → ResolverError E

pub first_or_scanned : String → String → String
first_or_scanned first scanned = if str_eq scanned "" then first else scanned

module _ (parse_ip : String → Option Ip) where
  -- An entry that parses to an address of the family.
  unfoldable pub of_family : Bool → String → Bool
  of_family want_v4 ip = elim (parse_ip ip) [
    | none ↦ false
    | some parsed ↦ same_bool (is_v4 parsed) want_v4
  ]

  -- `scan`
  unfoldable pub scan : List String → Bool → String
  scan [] want_v4 = ""
  scan (ip ∷ ips) want_v4 = let rest = scan ips want_v4 in if of_family want_v4 ip then ip else rest

  module _ {E : Type 0} (split_host_port : String → Result E (String × String))
      (join : String → String → String) where
    pub join_new :
        String → List String → String → String → Option Ip → Result (ResolverError E) String
    join_new first ips host port none = err (bad_ip host)
    join_new first ips host port (some orig) =
        ok (join (first_or_scanned first (scan (first ∷ ips) (is_v4 orig))) port)

    pub on_host_port :
        String → List String → Result E (String × String) → Result (ResolverError E) String
    on_host_port first ips (err e) = err (bad_address e)
    on_host_port first ips (ok (host, port)) = join_new first ips host port (parse_ip host)

    -- `replaceIP`
    unfoldable pub replace_ip : String → List String → Result (ResolverError E) String
    unfolding on_host_port join_new first_or_scanned
    replace_ip addr [] = err no_resolvers
    replace_ip addr (first ∷ ips) = on_host_port first ips (split_host_port addr)

    -- `resolverDialer` of MakeDialer: the address that it dials, for what GetResolvers returns.
    unfoldable pub resolver_address :
        (String → List String) → String → String → Result (ResolverError E) String
    resolver_address split resolvers address = replace_ip address (split resolvers)
