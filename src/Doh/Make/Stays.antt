-- ===== src/Doh/Make/Stays.antt =====
-- What queries and other goroutines leave of the set that `NewResolver` made.
use Prim.Native.String.{String}
use localdns_go.Prelude.{
  ℕ, zero, suc, ◌<◌, ◌≤◌, ◌≡◌, refl, false, Option, none, some, List, [], ◌∷◌, length, get_or, set,
  Result, arith, Bool-cases, inl, inr, length-append,
}
use localdns_go.Net.Ip.{Ip, nil_ip, ip_equal}
use localdns_go.IpMap.{IpSet, new_set, has_ip, add_ip, add_all, confirm, disconfirm}
use localdns_go.IpMap.Valid.{Op, adds, confirms, disconfirms, apply}
use localdns_go.IpMap.Store.{Store, update, get}
use localdns_go.IpMap.Store.Stable.{update-IsSound}
use localdns_go.Doh.Dial.{dial_set, dial_host}
use localdns_go.Doh.Dial.Host.{store-dial_set}
use localdns_go.Doh.Query.{at_server}
use localdns_go.Doh.Make.Ready.{IsReady, has_ip-add_ip_none, has_ip-add_all_none}

-- A method call that puts no nil address into the set.
abbrev pub AddsNoNil : Op → Type 0
AddsNoNil (adds ips) = has_ip ips nil_ip ≡ false
AddsNoNil (confirms ip) = ip_equal ip nil_ip ≡ false
AddsNoNil (disconfirms ip) = Unit

-- A set that is not empty and holds no nil address.
abbrev IsLive : IpSet → Type 0
IsLive s = (0 < length s.ips) × (has_ip s.ips nil_ip ≡ false)

add_ip-IsLive : (ip : Ip) (s : IpSet) → ip_equal ip nil_ip ≡ false → IsLive s → IsLive (add_ip ip s)
unfolding add_ip
add_ip-IsLive ip s d (n, h) =
    (ground (arith, length-append s.ips (ip ∷ [])), has_ip-add_ip_none ip nil_ip s d h)

length-add_all : (ips : List Ip) (s : IpSet) → length s.ips ≤ length (add_all ips s).ips
unfolding add_all add_ip
length-add_all [] s = omega arith
length-add_all (ip ∷ ips) s =
    ground (arith, length-append s.ips (ip ∷ []), length-add_all ips (add_ip ip s))

apply-IsLive : (op : Op) (s : IpSet) → AddsNoNil op → IsLive s → IsLive (apply op s)
unfolding apply confirm disconfirm
apply-IsLive (adds ips) s d (n, h) =
    (omega (arith, length-add_all ips s), has_ip-add_all_none ips nil_ip s d h)
apply-IsLive (confirms ip) s d live = elim (Bool-cases (ip_equal ip s.confirmed)) [
  | inl same ↦ rw same live
  | inr new ↦ rw new (add_ip-IsLive ip s d live)
]
apply-IsLive (disconfirms ip) s d live = ground arith

IsLive-set :
    (op : Op) (xs : List IpSet) (p q : ℕ)
    → AddsNoNil op
    → IsLive (get_or xs q new_set)
    → IsLive (get_or (set xs p (apply op (get_or xs p new_set))) q new_set)
IsLive-set op [] p q d live = live
IsLive-set op (x ∷ xs) zero zero d live = apply-IsLive op x d live
IsLive-set op (x ∷ xs) zero (suc q) d live = live
IsLive-set op (x ∷ xs) (suc p) zero d live = live
IsLive-set op (x ∷ xs) (suc p) (suc q) d live = IsLive-set op xs p q d live

pub update-IsReady :
    (op : Op) (p : ℕ) (host : String) (m : Store)
    → AddsNoNil op
    → IsReady host m
    → IsReady host (update op p m)
update-IsReady op p host m d r =
    let (n, h) = IsLive-set op m.sets p r.place d (r.some_ips, r.no_nil) in
    record {
      place = r.place;
      sound = update-IsSound op p r.sound;
      held = r.held;
      some_ips = n;
      no_nil = h;
    }

pub dial_set-IsReady :
    {E C : Type 0} (connect : Ip → Result E C) (draws : List (ℕ × ℕ)) (p : ℕ) (host : String)
    (m : Store)
    → IsReady host m
    → IsReady host (dial_set connect draws p m).1
dial_set-IsReady connect draws p host m r = elim (store-dial_set connect draws p m) [
  | inl same ↦ rw same r
  | inr back ↦ rw back (update-IsReady (disconfirms _) p host m tt r)
]

-- A dial of the host finds its set, and leaves it usable.
pub dial_host-IsReady :
    {E C : Type 0} (connect : Ip → Result E C) (resolve : String → List Ip) (draws : List (ℕ × ℕ))
    (host : String) (m : Store)
    → IsReady host m
    → IsReady host (dial_host connect resolve draws host m).1
unfolding dial_host get
dial_host-IsReady connect resolve draws host m r =
    rw (r.held, get) (dial_set-IsReady connect draws r.place host m r)

-- So does the confirmation of a server's address.
pub at_server-IsReady :
    (resolve : String → List Ip) (op : Ip → Op) (server : Option Ip) (host : String) (m : Store)
    → ((ip : Ip) → server ≡ some ip → AddsNoNil (op ip))
    → IsReady host m
    → IsReady host (at_server resolve op server host m)
unfolding at_server get
at_server-IsReady resolve op none host m d r = r
at_server-IsReady resolve op (some ip) host m d r =
    rw (r.held, get) (update-IsReady (op ip) r.place host m (d ip refl) r)
