-- ===== src/Doh/Dial.antt =====
-- The fallback over a host's addresses: `resolver.dial` of proxy/doh/doh.go, which has the same body as
-- `resolver.dialPlainTCP` of proxy/dot/dot.go. `connect` says how `split.DialWithSplitRetry` ends for an
-- address, `resolve` what the system resolver answers for a name, `draws` what `GetAll` draws.
pub mod Complete
pub mod Host
use Prim.Native.String.{String}
use localdns_go.Prelude.{
  ℕ, Bool, true, false, Option, none, some, List, [], ◌∷◌, Result, ok, err, if◌then◌else◌,
}
use localdns_go.Net.Ip.{Ip, is_nil, ip_equal}
use localdns_go.IpMap.{IpSet, get_all}
use localdns_go.IpMap.Valid.{disconfirms}
use localdns_go.IpMap.Store.{Store, get, set_at, update}

-- The pair `(conn, err)`: no connection may come with no error.
pub data DialResult (E C : Type 0) : Type 0 where
  connected : C → DialResult E C
  failed : Option E → DialResult E C

module _ {E C : Type 0} (connect : Ip → Result E C) where
  -- the loop over `GetAll`; `last` is `err` so far
  unfoldable pub try_ips : Ip → List Ip → Option E → DialResult E C
  try_ips confirmed [] last = failed last
  try_ips confirmed (ip ∷ ips) last =
      let skipped = try_ips confirmed ips last in
      let attempt : DialResult E C = elim (connect ip) [
        | ok conn ↦ connected conn
        | err e ↦ try_ips confirmed ips (some e)
      ] in
      if ip_equal ip confirmed then skipped else attempt

  -- Everything behind `ips := r.ips.Get(domain)`, for the set `p`.
  try_confirmed : List (ℕ × ℕ) → ℕ → Ip → Store → Result E C → DialResult E C × Store
  try_confirmed draws p confirmed m (ok conn) = (connected conn, m)
  try_confirmed draws p confirmed m (err e) =
      let m' = update (disconfirms confirmed) p m in
      (try_ips confirmed (get_all draws (set_at p m')) (some e), m')

  unfoldable pub dial_set : List (ℕ × ℕ) → ℕ → Store → DialResult E C × Store
  unfolding try_confirmed
  dial_set draws p m =
      let confirmed = (set_at p m).confirmed in
      if is_nil confirmed
      then (try_ips confirmed (get_all draws (set_at p m)) none, m)
      else try_confirmed draws p confirmed m (connect confirmed)

  unfoldable pub dial_host :
      (String → List Ip) → List (ℕ × ℕ) → String → Store → DialResult E C × Store
  dial_host resolve draws domain m =
      let (p, m') = get domain (resolve domain) m in dial_set draws p m'

-- `resolver.dial`. `parsed` is what `net.SplitHostPort` and `strconv.Atoi` make of the address; the
-- port goes into each `tcpaddr`.
unfoldable pub dial :
    {E C : Type 0}
    → (ℕ → Ip → Result E C)
    → (String → List Ip)
    → List (ℕ × ℕ)
    → Result E (String × ℕ)
    → Store
    → DialResult E C × Store
dial connect resolve draws (err e) m = (failed (some e), m)
dial connect resolve draws (ok (domain, port)) m = dial_host (connect port) resolve draws domain m
