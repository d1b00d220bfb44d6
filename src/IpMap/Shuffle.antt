-- ===== src/IpMap/Shuffle.antt =====
-- `GetAll` returns every address of the set and no other, whatever pairs `rand.Shuffle` draws.
use localdns_go.Prelude.{
  ℕ, zero, suc, ◌<◌, ◌≡◌, refl, sym, ◌∙◌, Bool, true, false, List, [], ◌∷◌, length, get_or, set,
  All, arith, Bool-cases, inl, inr, ◌==◌, if◌then◌else◌, length-set, get_or-set,
}
use localdns_go.Net.Ip.{Ip, nil_ip, ip_equal}
use localdns_go.IpMap.{IpSet, has_ip, swap, shuffle, get_all}

-- Both places of a pair lie in a list of `n` items.
abbrev pub InRange : ℕ → ℕ × ℕ → Type 0
InRange n d = (d.0 < n) × (d.1 < n)

-- A place at which the list holds `ip`.
abbrev Place : List Ip → Ip → Type 0
Place c ip = (k : ℕ) × (k < length c) × (ip_equal (get_or c k nil_ip) ip ≡ true)

found_at : (c : List Ip) (ip : Ip) → has_ip c ip ≡ true → Place c ip
unfolding has_ip
found_at [] ip h = cc
found_at (x ∷ c) ip h = elim (Bool-cases (ip_equal x ip)) [
  | inl e ↦ (0, omega arith, e)
  | inr e ↦ let (k, lt, p) = found_at c ip (ground arith) in (suc k, omega arith, p)
]

has_of_place :
    (c : List Ip) (ip : Ip) (k : ℕ)
    → k < length c
    → ip_equal (get_or c k nil_ip) ip ≡ true
    → has_ip c ip ≡ true
unfolding has_ip
has_of_place [] ip k h p = elim h [ ]
has_of_place (x ∷ c) ip zero h p = ground arith
has_of_place (x ∷ c) ip (suc k) h p = ground (arith, has_of_place c ip k)

module _ (i j : ℕ) (c : List Ip) (hi : i < length c) (hj : j < length c) where
  length-swap : length (swap i j c) ≡ length c
  length-swap =
      length-set (set c i (get_or c j nil_ip)) j (get_or c i nil_ip)
      ∙ length-set c i (get_or c j nil_ip)

  get_or-swap :
      (k : ℕ)
      → get_or (swap i j c) k nil_ip ≡ (
          if k == j
          then get_or c i nil_ip
          else if k == i
          then get_or c j nil_ip
          else get_or c k nil_ip)
  get_or-swap k = ground (
    arith,
    length-set c i (get_or c j nil_ip),
    get_or-set (set c i (get_or c j nil_ip)) j k (get_or c i nil_ip) nil_ip,
    get_or-set c i k (get_or c j nil_ip) nil_ip,
  )

  -- where the item of place `k` is after the swap
  abbrev moved : ℕ → ℕ
  moved k = if k == i then j else if k == j then i else k

  has_ip-swap : (ip : Ip) → has_ip c ip ≡ true → has_ip (swap i j c) ip ≡ true
  has_ip-swap ip h =
      let (k, lt, p) = found_at c ip h in
      has_of_place (swap i j c) ip (moved k) (ground (arith, length-swap))
        (ground (arith, get_or-swap (moved k)))

  swap-has_ip : (ip : Ip) → has_ip (swap i j c) ip ≡ true → has_ip c ip ≡ true
  swap-has_ip ip h =
      let (k, lt, p) = found_at (swap i j c) ip h in
      has_of_place c ip (moved k) (ground (arith, length-swap)) (ground (arith, get_or-swap k))

pub Bool-eq : (a b : Bool) → (a ≡ true → b ≡ true) → (b ≡ true → a ≡ true) → a ≡ b
Bool-eq true b f g = sym (f refl)
Bool-eq false true f g = g refl
Bool-eq false false f g = refl

has_ip-shuffle :
    (draws : List (ℕ × ℕ)) (c : List Ip) (ip : Ip)
    → All (InRange (length c)) draws
    → (has_ip (shuffle draws c) ip ≡ has_ip c ip) × (length (shuffle draws c) ≡ length c)
unfolding shuffle
has_ip-shuffle [] c ip h = (refl, refl)
has_ip-shuffle ((i, j) ∷ draws) c ip h =
    let len = length-swap i j c h.0.0 h.0.1 in
    let (same, kept) = has_ip-shuffle draws (swap i j c) ip (rw len h.1) in
    (
      same ∙ Bool-eq _ _ (swap-has_ip i j c h.0.0 h.0.1 ip) (has_ip-swap i j c h.0.0 h.0.1 ip),
      kept ∙ len,
    )

-- For pairs of places of the set, `GetAll` has as many addresses as the set, and holds an address
-- exactly if the set does.
pub has_ip-get_all :
    (draws : List (ℕ × ℕ)) (s : IpSet) (ip : Ip)
    → All (InRange (length s.ips)) draws
    → (has_ip (get_all draws s) ip ≡ has_ip s.ips ip) × (length (get_all draws s) ≡ length s.ips)
unfolding get_all
has_ip-get_all draws s ip h = has_ip-shuffle draws s.ips ip h
