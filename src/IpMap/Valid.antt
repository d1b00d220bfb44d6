-- ===== src/IpMap/Valid.antt =====
-- The set holds no address twice, and the confirmed address is in it.
use localdns_go.Prelude.{
  ◌≡◌, refl, true, false, ◌||◌, List, [], ◌∷◌, ◌++◌, All, arith, Bool-cases, inl, inr,
}
use localdns_go.Net.Ip.{Ip, nil_ip, is_nil, ip_equal}
use localdns_go.Net.Ip.Same.{ip_equal_refl}
use localdns_go.IpMap.{IpSet, new_set, has_ip, add_ip, add_all, confirm, disconfirm}

abbrev pub Differs : Ip → Ip → Type 0
Differs a b = ip_equal a b ≡ false

abbrev pub AreDistinct : List Ip → Type 0
AreDistinct [] = Unit
AreDistinct (x ∷ xs) = All (Differs x) xs × AreDistinct xs

pub record IsValid (s : IpSet) : Type 0 where
  pub distinct : AreDistinct s.ips
  pub confirmed_known : is_nil s.confirmed ≡ false → has_ip s.ips s.confirmed ≡ true

pub has_ip-append :
    (xs ys : List Ip) (ip : Ip) → has_ip (xs ++ ys) ip ≡ (has_ip xs ip || has_ip ys ip)
unfolding has_ip
has_ip-append [] ys ip = refl
has_ip-append (x ∷ xs) ys ip = ground (arith, has_ip-append xs ys ip)

All-Differs-concat :
    (x : Ip) (xs : List Ip) (ip : Ip)
    → All (Differs x) xs
    → Differs x ip
    → All (Differs x) (xs ++ ip ∷ [])
All-Differs-concat x [] ip h d = (d, tt)
All-Differs-concat x (y ∷ xs) ip h d = (h.0, All-Differs-concat x xs ip h.1 d)

AreDistinct-concat :
    (xs : List Ip) (ip : Ip) → AreDistinct xs → has_ip xs ip ≡ false → AreDistinct (xs ++ ip ∷ [])
unfolding has_ip
AreDistinct-concat [] ip h d = (tt, tt)
AreDistinct-concat (x ∷ xs) ip h d =
    (All-Differs-concat x xs ip h.0 (ground arith), AreDistinct-concat xs ip h.1 (ground arith))

-- What `add` leaves: the address is in, and nothing is lost.
pub has_ip-add_ip_self : (ip : Ip) (s : IpSet) → has_ip (add_ip ip s).ips ip ≡ true
unfolding add_ip has_ip
has_ip-add_ip_self ip s = ground (arith, has_ip-append s.ips (ip ∷ []) ip, ip_equal_refl ip)

pub has_ip-add_ip :
    (ip other : Ip) (s : IpSet) → has_ip s.ips other ≡ true → has_ip (add_ip ip s).ips other ≡ true
unfolding add_ip
has_ip-add_ip ip other s h = ground (arith, has_ip-append s.ips (ip ∷ []) other)

confirmed-add_ip : (ip : Ip) (s : IpSet) → (add_ip ip s).confirmed ≡ s.confirmed
unfolding add_ip
confirmed-add_ip ip s = ground arith

AreDistinct-add_ip : (ip : Ip) (s : IpSet) → AreDistinct s.ips → AreDistinct (add_ip ip s).ips
unfolding add_ip
AreDistinct-add_ip ip s h = elim (Bool-cases (has_ip s.ips ip)) [
  | inl e ↦ simp e h
  | inr e ↦ simp e (AreDistinct-concat s.ips ip h e)
]

add_ip-IsValid : (ip : Ip) {s : IpSet} → IsValid s → IsValid (add_ip ip s)
add_ip-IsValid ip {s} v = record {
  distinct = AreDistinct-add_ip ip s v.distinct;
  confirmed_known =
      rw (confirmed-add_ip ip s) (λ h. has_ip-add_ip ip s.confirmed s (v.confirmed_known h));
}

-- `Add` keeps the set valid, whatever the resolver answers.
pub add_all-IsValid : (resolved : List Ip) {s : IpSet} → IsValid s → IsValid (add_all resolved s)
unfolding add_all
add_all-IsValid [] v = v
add_all-IsValid (ip ∷ resolved) v = add_all-IsValid resolved (add_ip-IsValid ip v)

pub confirm-IsValid : (ip : Ip) {s : IpSet} → IsValid s → IsValid (confirm ip s)
unfolding confirm
confirm-IsValid ip {s} v = elim (Bool-cases (ip_equal ip s.confirmed)) [
  | inl e ↦ simp e v
  | inr e ↦ simp e (record {
    distinct = AreDistinct-add_ip ip s v.distinct;
    confirmed_known = λ _. has_ip-add_ip_self ip s;
  })
]

pub disconfirm-IsValid : (ip : Ip) {s : IpSet} → IsValid s → IsValid (disconfirm ip s)
unfolding disconfirm
disconfirm-IsValid ip {s} v = elim (Bool-cases (ip_equal ip s.confirmed)) [
  | inl e ↦ simp e (record { distinct = v.distinct; confirmed_known = λ h. cc })
  | inr e ↦ simp e v
]

pub nil-Differs : (ip : Ip) → is_nil ip ≡ false → ip_equal ip nil_ip ≡ false
unfolding ip_equal
nil-Differs [] h = cc
nil-Differs (b ∷ bs) h = ground arith

-- What the exported methods do to a set.
pub data Op : Type 0 where
  adds : List Ip → Op
  confirms : Ip → Op
  disconfirms : Ip → Op

unfoldable pub apply : Op → IpSet → IpSet
apply (adds resolved) s = add_all resolved s
apply (confirms ip) s = confirm ip s
apply (disconfirms ip) s = disconfirm ip s

unfoldable pub run : List Op → IpSet → IpSet
unfolding apply
run [] s = s
run (op ∷ ops) s = run ops (apply op s)

pub apply-IsValid : (op : Op) {s : IpSet} → IsValid s → IsValid (apply op s)
unfolding apply
apply-IsValid (adds resolved) v = add_all-IsValid resolved v
apply-IsValid (confirms ip) v = confirm-IsValid ip v
apply-IsValid (disconfirms ip) v = disconfirm-IsValid ip v

-- Any sequence of `Add`, `Confirm` and `Disconfirm` on a valid set, whatever is resolved, leaves a
-- valid one: no two addresses are equal, and a confirmed address is in the set.
pub run-IsValid : (ops : List Op) {s : IpSet} → IsValid s → IsValid (run ops s)
unfolding run
run-IsValid [] v = v
run-IsValid (op ∷ ops) v = run-IsValid ops (apply-IsValid op v)

pub new_set-IsValid : IsValid new_set
new_set-IsValid = record { distinct = tt; confirmed_known = λ h. cc }

has_ip-add_all :
    (resolved : List Ip) (other : Ip) (s : IpSet)
    → has_ip s.ips other ≡ true
    → has_ip (add_all resolved s).ips other ≡ true
unfolding add_all
has_ip-add_all [] other s h = h
has_ip-add_all (ip ∷ resolved) other s h =
    has_ip-add_all resolved other (add_ip ip s) (has_ip-add_ip ip other s h)

pub has_ip-apply :
    (op : Op) (ip : Ip) (s : IpSet) → has_ip s.ips ip ≡ true → has_ip (apply op s).ips ip ≡ true
unfolding apply confirm disconfirm
has_ip-apply (adds resolved) ip s h = has_ip-add_all resolved ip s h
has_ip-apply (confirms new) ip s h = ground (arith, has_ip-add_ip new ip s)
has_ip-apply (disconfirms old) ip s h = ground arith

-- No method removes an address: what is in the set stays in it.
pub has_ip-run :
    (ops : List Op) (ip : Ip) (s : IpSet)
    → has_ip s.ips ip ≡ true
    → has_ip (run ops s).ips ip ≡ true
unfolding run
has_ip-run [] ip s h = h
has_ip-run (op ∷ ops) ip s h = has_ip-run ops ip (apply op s) (has_ip-apply op ip s h)

-- `Confirm` makes an address equal to the given one the confirmed one; `Disconfirm` of an address
-- that is not nil ends with another confirmed address or none, and keeps the addresses of the set.
pub confirm-disconfirm :
    (ip : Ip) (s : IpSet)
    → is_nil ip ≡ false
    → (ip_equal ip (confirm ip s).confirmed ≡ true)
      × (ip_equal ip (disconfirm ip s).confirmed ≡ false)
      × ((disconfirm ip s).ips ≡ s.ips)
unfolding confirm disconfirm
confirm-disconfirm ip s h =
    (ground (arith, ip_equal_refl ip), ground (arith, nil-Differs ip h), ground arith)
