-- ===== src/IpMap/View.antt =====
-- The abstract view of an address set: which addresses are known, and which one is confirmed, with no view
-- to their order, to the form of an address, or to how often it was added.
use localdns_go.Prelude.{
  ◌≡◌, refl, ap, ◌∙◌, fun_ext, Bool, true, false, ◌||◌, List, [], ◌∷◌, All, arith, Bool-cases, inl,
  inr, if◌then◌else◌,
}
use localdns_go.Net.Ip.{Ip, nil_ip, is_nil, ip_equal}
use localdns_go.Net.Ip.Same.{ip_equal_sym, ip_equal_trans}
use localdns_go.IpMap.{IpSet, has_ip, add_ip, add_all, confirm, disconfirm}
use localdns_go.IpMap.Shuffle.{Bool-eq}
use localdns_go.IpMap.Valid.{
  Op, adds, confirms, disconfirms, apply, run, IsValid, has_ip-append, apply-IsValid, nil-Differs,
}

-- The two predicates; the second one holds of nil only, when no address is confirmed.
pub record Addresses : Type 0 where
  pub knows : Ip → Bool
  pub confirms_it : Ip → Bool

abbrev pub view : IpSet → Addresses
view s = record { knows = has_ip s.ips; confirms_it = ip_equal s.confirmed }

-- What each method means for the view.
unfoldable pub apply_view : Op → Addresses → Addresses
apply_view (adds resolved) a = record a { knows = λ ip. a.knows ip || has_ip resolved ip }
apply_view (confirms new) a = record {
  knows = λ ip. a.knows ip || ip_equal new ip;
  confirms_it = ip_equal new;
}
apply_view (disconfirms old) a = record a {
  confirms_it = if a.confirms_it old then ip_equal nil_ip else a.confirms_it;
}

unfoldable pub run_view : List Op → Addresses → Addresses
run_view [] a = a
run_view (op ∷ ops) a = run_view ops (apply_view op a)

-- `Confirm` is called with addresses.
abbrev pub ConfirmsReal : Op → Type 0
ConfirmsReal (confirms ip) = is_nil ip ≡ false
ConfirmsReal _ = Unit

has_ip-same :
    (ips : List Ip) (a b : Ip) → ip_equal a b ≡ true → has_ip ips a ≡ true → has_ip ips b ≡ true
unfolding has_ip
has_ip-same [] a b e h = cc
has_ip-same (x ∷ ips) a b e h = ground (arith, has_ip-same ips a b e, ip_equal_trans x a b)

ip_equal_same : (a b : Ip) → ip_equal a b ≡ true → ip_equal a ≡ ip_equal b
ip_equal_same a b e =
    fun_ext
      λ c. Bool-eq _ _ (λ h. ip_equal_trans b a c (ip_equal_sym a b e) h) (ip_equal_trans a b c e)

ip_equal_comm : (a b : Ip) → ip_equal a b ≡ ip_equal b a
ip_equal_comm a b = Bool-eq _ _ (ip_equal_sym a b) (ip_equal_sym b a)

live_same : (a b : Ip) → is_nil a ≡ false → ip_equal a b ≡ true → is_nil b ≡ false
live_same a [] real same = cc (nil-Differs a real)
live_same a (b ∷ bs) real same = refl

or_of : (a b : Bool) → (b ≡ true → a ≡ true) → a ≡ (a || b)
or_of true b h = refl
or_of false true h = cc (h refl)
or_of false false h = refl

knows-add_ip :
    (ip other : Ip) (s : IpSet)
    → has_ip (add_ip ip s).ips other ≡ (has_ip s.ips other || ip_equal ip other)
unfolding add_ip has_ip
knows-add_ip ip other s = elim (Bool-cases (has_ip s.ips ip)) [
  | inl there ↦ simp there (or_of _ _ (λ e. has_ip-same s.ips ip other e there))
  | inr new ↦ simp new (ground (arith, has_ip-append s.ips (ip ∷ []) other))
]

knows-add_all :
    (resolved : List Ip) (other : Ip) (s : IpSet)
    → has_ip (add_all resolved s).ips other ≡ (has_ip s.ips other || has_ip resolved other)
unfolding add_all has_ip
knows-add_all [] other s = ground arith
knows-add_all (ip ∷ resolved) other s =
    ground (arith, knows-add_all resolved other (add_ip ip s), knows-add_ip ip other s)

confirmed-add_all : (resolved : List Ip) (s : IpSet) → (add_all resolved s).confirmed ≡ s.confirmed
unfolding add_all add_ip
confirmed-add_all [] s = refl
confirmed-add_all (ip ∷ resolved) s = ground (arith, confirmed-add_all resolved (add_ip ip s))

Addresses-eq :
    (a b : Addresses)
    → ((ip : Ip) → a.knows ip ≡ b.knows ip)
    → a.confirms_it ≡ b.confirms_it
    → a ≡ b
Addresses-eq a b k c = cc (fun_ext k, c)

view-confirm :
    (ip : Ip) (s : IpSet)
    → is_nil ip ≡ false
    → IsValid s
    → view (confirm ip s) ≡ apply_view (confirms ip) (view s)
unfolding confirm apply_view
view-confirm ip s real v = elim (Bool-cases (ip_equal ip s.confirmed)) [
  | inl same ↦ simp same (
      Addresses-eq _ _
        (λ other. or_of _ _ (λ e.
          has_ip-same s.ips s.confirmed other
            (ip_equal_trans s.confirmed ip other (ip_equal_sym ip s.confirmed same) e)
            (v.confirmed_known (live_same ip s.confirmed real same))))
        (ip_equal_same s.confirmed ip (ip_equal_sym ip s.confirmed same)))
  | inr new ↦ simp new (Addresses-eq _ _ (λ other. knows-add_ip ip other s) refl)
]

view-disconfirm :
    (ip : Ip) (s : IpSet) → view (disconfirm ip s) ≡ apply_view (disconfirms ip) (view s)
unfolding disconfirm apply_view
view-disconfirm ip s = elim (Bool-cases (ip_equal ip s.confirmed)) [
  | inl same ↦ simp (same, ip_equal_sym ip s.confirmed same) refl
  | inr other ↦ simp (other, ip_equal_comm s.confirmed ip ∙ other) refl
]

view-apply :
    (op : Op) (s : IpSet) → ConfirmsReal op → IsValid s → view (apply op s) ≡ apply_view op (view s)
unfolding apply apply_view
view-apply (adds resolved) s real v =
    Addresses-eq _ _ (λ other. knows-add_all resolved other s)
      (ap ip_equal (confirmed-add_all resolved s))
view-apply (confirms ip) s real v = view-confirm ip s real v
view-apply (disconfirms ip) s real v = view-disconfirm ip s

-- An `IPSet` is an unordered collection of addresses, as its comment says: any sequence of `Add`,
-- `Confirm` and `Disconfirm` on a valid set does to the view what the operations mean there. So the
-- short cut of `Confirm` for an address that is confirmed already, the check for duplicates and the order
-- cannot be observed. `Confirm` is called with no nil address.
pub view-run :
    (ops : List Op) (s : IpSet)
    → All ConfirmsReal ops
    → IsValid s
    → view (run ops s) ≡ run_view ops (view s)
unfolding run run_view
view-run [] s real v = refl
view-run (op ∷ ops) s real v =
    view-run ops (apply op s) real.1 (apply-IsValid op v)
    ∙ ap (run_view ops) (view-apply op s real.0 v)
