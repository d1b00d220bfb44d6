-- ===== src/Doh/Dial/Host.antt =====
-- A dial of one host's set: it finds a working address, and does not return `(nil, nil)`, if the set
-- holds addresses; it does return that for a host without any.
use Prim.Native.String.{String}
use localdns_go.Prelude.{
  ℕ, zero, suc, ◌<◌, ◌≡◌, ◌≢◌, ◌⊎◌, refl, sym, ap, ◌∙◌, true, false, none, some, List, [], ◌∷◌,
  ◌++◌, Result, ok, err, All, arith, Result-cases, Bool-cases, inl, inr, length, get_or, set,
}
use localdns_go.Net.Ip.{Ip, nil_ip, is_nil, ip_equal}
use localdns_go.IpMap.{IpSet, new_set, has_ip, get_all, shuffle, disconfirm, add_all}
use localdns_go.IpMap.Shuffle.{InRange, has_ip-get_all}
use localdns_go.IpMap.Valid.{disconfirms, apply}
use localdns_go.IpMap.Store.{Store, set_at, update, find, commit, get}
use localdns_go.Doh.Dial.{connected, failed, try_ips, try_confirmed, dial_set, dial_host, dial}
use localdns_go.Doh.Dial.Complete.{
  RespectsEqual, to_connected, from_connected, try_ips-connects, try_ips-ne-nil, try_ips-nil,
  try_ips-from,
}

ips-disconfirm : (c : Ip) (s : IpSet) → (apply (disconfirms c) s).ips ≡ s.ips
unfolding apply disconfirm
ips-disconfirm c s = ground arith

ips_at :
    (xs : List IpSet) (p : ℕ) (c : Ip)
    → (get_or (set xs p (apply (disconfirms c) (get_or xs p new_set))) p new_set).ips
      ≡ (get_or xs p new_set).ips
ips_at [] p c = refl
ips_at (x ∷ xs) zero c = ips-disconfirm c x
ips_at (x ∷ xs) (suc p) c = ips_at xs p c

-- the loop behind a failed attempt at the confirmed address sees the same addresses
has_ip_after :
    (draws : List (ℕ × ℕ)) (p : ℕ) (m : Store) (c ip : Ip)
    → All (InRange (length (set_at p m).ips)) draws
    → has_ip (get_all draws (set_at p (update (disconfirms c) p m))) ip ≡ has_ip (set_at p m).ips ip
has_ip_after draws p m c ip h =
    let same = ips_at m.sets p c in
    (has_ip-get_all draws (set_at p (update (disconfirms c) p m)) ip (rw same h)).0
    ∙ ap (λ ips. has_ip ips ip) same

has_ip-head : (x : Ip) (ips : List Ip) → has_ip (x ∷ ips) nil_ip ≡ false → ip_equal x nil_ip ≡ false
unfolding has_ip
has_ip-head x ips h = ground arith

nil_of_is_nil : (ip : Ip) → is_nil ip ≡ true → ip ≡ nil_ip
nil_of_is_nil [] h = refl
nil_of_is_nil (b ∷ bs) h = cc

Differs_of_nil :
    (ip confirmed : Ip)
    → is_nil ip ≡ false
    → is_nil confirmed ≡ true
    → ip_equal ip confirmed ≡ false
unfolding ip_equal
Differs_of_nil [] confirmed h k = cc
Differs_of_nil (b ∷ bs) [] h k = ground arith
Differs_of_nil (b ∷ bs) (b' ∷ bs') h k = cc

Differs_of_failed :
    {E C : Type 0} (connect : Ip → Result E C)
    → RespectsEqual connect
    → (a b : Ip) (c : C) (e : E) → connect a ≡ ok c
    → connect b ≡ err e
    → ip_equal a b ≡ false
Differs_of_failed connect r a b c e k q = ground (arith, r.same a b)

-- A dial leaves the map as it was, or takes the confirmation back.
pub store-dial_set :
    {E C : Type 0} (connect : Ip → Result E C) (draws : List (ℕ × ℕ)) (p : ℕ) (m : Store)
    → ((dial_set connect draws p m).1 ≡ m)
      ⊎ ((dial_set connect draws p m).1 ≡ update (disconfirms (set_at p m).confirmed) p m)
unfolding dial_set try_confirmed
store-dial_set connect draws p m = elim (Bool-cases (is_nil (set_at p m).confirmed)) [
  | inl unconfirmed ↦ inl (rw unconfirmed refl)
  | inr confirmed ↦ elim (Result-cases (connect (set_at p m).confirmed)) [
    | inl (c, k) ↦ inl (rw (confirmed, k, try_confirmed) refl)
    | inr (e, k) ↦ inr (rw (confirmed, k, try_confirmed) refl)
  ]
]

module _ {E C : Type 0} (connect : Ip → Result E C) (draws : List (ℕ × ℕ)) (p : ℕ) (m : Store)
    (h : All (InRange (length (set_at p m).ips)) draws) where
  get_all_has : (ip : Ip) → has_ip (get_all draws (set_at p m)) ip ≡ has_ip (set_at p m).ips ip
  get_all_has ip = (has_ip-get_all draws (set_at p m) ip h).0

  -- Given that a connection attempt depends on the address and not on its form, and that the draws
  -- are places of the set: if some address of the set that is not nil connects, so does the dial,
  -- whatever address is confirmed and in whatever order the others are tried.
  pub dial_set-connects :
      RespectsEqual connect
      → (ip : Ip) (c : C) → is_nil ip ≡ false
      → has_ip (set_at p m).ips ip ≡ true
      → connect ip ≡ ok c
      → (c' : C) × ((dial_set connect draws p m).0 ≡ connected c')
  unfolding dial_set try_confirmed
  dial_set-connects r ip c live member k = elim (Bool-cases (is_nil (set_at p m).confirmed)) [
    | inl unconfirmed ↦ rw unconfirmed (
        to_connected _ (
          try_ips-connects connect r _ _ none ip c (get_all_has ip ∙ member)
            (Differs_of_nil _ _ live unconfirmed) k))
    | inr confirmed ↦ rw confirmed (elim (Result-cases (connect (set_at p m).confirmed)) [
      | inl (c', q) ↦ rw (q, try_confirmed) (c', refl)
      | inr (e, q) ↦
          rw (q, try_confirmed)
            (to_connected _ (
              try_ips-connects connect r _ _ (some e) ip c
                (has_ip_after draws p m (set_at p m).confirmed ip h ∙ member)
                (Differs_of_failed connect r ip (set_at p m).confirmed c e k q) k))
    ])
  ]

  -- Where the draws are places of the set: a dial of a set that holds an address, and not nil
  -- among them, returns a connection or an error.
  pub dial_set-ne-nil :
      0 < length (set_at p m).ips
      → has_ip (set_at p m).ips nil_ip ≡ false
      → (dial_set connect draws p m).0 ≢ failed none
  unfolding dial_set try_confirmed
  dial_set-ne-nil some_ips live z = elim (Bool-cases (is_nil (set_at p m).confirmed)) [
    | inl unconfirmed ↦
        first_is_tried (get_all draws (set_at p m))
          (omega (arith, (has_ip-get_all draws (set_at p m) nil_ip h).1))
          (get_all_has nil_ip ∙ live) (rw (unconfirmed, nil_of_is_nil _ unconfirmed) at z)
    | inr confirmed ↦ elim (Result-cases (connect (set_at p m).confirmed)) [
      | inl (c', q) ↦ cc (rw (confirmed, q, try_confirmed) at z)
      | inr (e, q) ↦ try_ips-ne-nil connect _ _ e (rw (confirmed, q, try_confirmed) at z)
    ]
  ]
    where
      first_is_tried :
          (ips : List Ip)
          → 0 < length ips
          → has_ip ips nil_ip ≡ false
          → try_ips connect nil_ip ips none ≢ failed none
      first_is_tried [] lt n = elim lt [ ]
      first_is_tried (x ∷ ips) lt n = try_ips-nil connect x ips none (has_ip-head x ips n)

  -- Where the draws are places of the set: a connection that a dial returns is one to an address
  -- of the set, or to the confirmed address.
  pub dial_set-from :
      (c : C)
      → (dial_set connect draws p m).0 ≡ connected c
      → (ip : Ip) × ((has_ip (set_at p m).ips ip ≡ true) ⊎ (ip ≡ (set_at p m).confirmed))
        × (connect ip ≡ ok c)
  unfolding dial_set try_confirmed
  dial_set-from c z = elim (Bool-cases (is_nil (set_at p m).confirmed)) [
    | inl unconfirmed ↦
        let (ip, member, k) = try_ips-from connect _ _ none c (rw unconfirmed at z) in
        (ip, inl (sym (get_all_has ip) ∙ member), k)
    | inr confirmed ↦ elim (Result-cases (connect (set_at p m).confirmed)) [
      | inl (c', q) ↦ (
        (set_at p m).confirmed,
        inr refl,
        q ∙ from_connected (rw (confirmed, q, try_confirmed) at z),
      )
      | inr (e, q) ↦
          let (ip, member, k) =
            try_ips-from connect _ _ (some e) c (rw (confirmed, q, try_confirmed) at z) in
          (ip, inl (sym (has_ip_after draws p m _ ip h) ∙ member), k)
    ]
  ]

shuffle-nil : (draws : List (ℕ × ℕ)) → shuffle draws [] ≡ []
unfolding shuffle
shuffle-nil [] = refl
shuffle-nil ((i, j) ∷ draws) = shuffle-nil draws

get_or-concat : (xs : List IpSet) (x : IpSet) → get_or (xs ++ x ∷ []) (length xs) new_set ≡ x
get_or-concat [] x = refl
get_or-concat (y ∷ xs) x = get_or-concat xs x

dial_set-empty :
    {E C : Type 0} (connect : Ip → Result E C) (draws : List (ℕ × ℕ)) (p : ℕ) (m : Store)
    → set_at p m ≡ new_set
    → (dial_set connect draws p m).0 ≡ failed none
unfolding dial_set get_all try_ips
dial_set-empty connect draws p m e = rw e (rw (shuffle-nil draws, try_ips))

-- A dial of a host that is not in the map yet, and for which the resolver has no addresses (as may
-- happen behind a redirect), returns neither a connection nor an error.
pub dial_without_addresses :
    {E C : Type 0} (connect : ℕ → Ip → Result E C) (resolve : String → List Ip)
    (draws : List (ℕ × ℕ)) (domain : String) (port : ℕ) (m : Store)
    → find domain m ≡ none
    → resolve domain ≡ []
    → (dial connect resolve draws (ok (domain, port)) m).0 ≡ failed none
unfolding dial dial_host get add_all
dial_without_addresses connect resolve draws domain port m absent silent =
    rw (absent, get)
      (rw (absent, commit)
        (rw silent
          (dial_set-empty (connect port) draws (length m.sets) _ (get_or-concat m.sets new_set))))
