-- ===== src/Doh/Dial/Complete.antt =====
-- When a dial finds a connection, and what it returns when it does not.
use localdns_go.Prelude.{
  ◌≡◌, ◌≢◌, refl, ◌∙◌, true, false, Option, none, some, List, [], ◌∷◌, Result, ok, arith,
  Result-cases, Bool-cases, inl, inr,
}
use localdns_go.Net.Ip.{Ip, nil_ip, ip_equal}
use localdns_go.Net.Ip.Same.{ip_equal_refl, ip_equal_sym, ip_equal_trans}
use localdns_go.IpMap.{has_ip}
use localdns_go.Doh.Dial.{DialResult, connected, failed, try_ips}

abbrev pub IsConnected : {E C : Type 0} → DialResult E C → Type 0
IsConnected {C = C} (connected c) = Unit
IsConnected (failed e) = ⊥

pub from_connected :
    {E C : Type 0} {c c' : C}
    → ◌≡◌ {A = DialResult E C} (connected c') (connected c)
    → ◌≡◌ {A = Result E C} (ok c') (ok c)
from_connected e = cc

pub to_connected : {E C : Type 0} (r : DialResult E C) → IsConnected r → (c : C) × (r ≡ connected c)
to_connected (connected c) h = (c, refl)
to_connected (failed e) h = absurd h

module _ {E C : Type 0} (connect : Ip → Result E C) where
  -- The outcome of a dial depends on the address, not on its form.
  pub record RespectsEqual : Type 0 where
    pub same : (a b : Ip) → ip_equal a b ≡ true → connect a ≡ connect b

  -- An address that connects and is not the one to skip is found behind any others.
  pub try_ips-connects :
      RespectsEqual
      → (confirmed : Ip) (ips : List Ip) (last : Option E) (ip : Ip) (c : C) → has_ip ips ip ≡ true
      → ip_equal ip confirmed ≡ false
      → connect ip ≡ ok c
      → IsConnected (try_ips connect confirmed ips last)
  unfolding try_ips has_ip
  try_ips-connects r confirmed [] last ip c h d k = cc
  try_ips-connects r confirmed (x ∷ ips) last ip c h d k =
      elim (Bool-cases (ip_equal x confirmed)) [
        | inl skip ↦ rw skip (
            try_ips-connects r confirmed ips last ip c
              (ground (arith, ip_equal_sym x ip, ip_equal_trans ip x confirmed)) d k)
        | inr try ↦ rw try (elim (Result-cases (connect x)) [
          | inl (c', p) ↦ rw p tt
          | inr (e, p) ↦
              rw p
                (try_ips-connects r confirmed ips (some e) ip c (ground (arith, r.same x ip)) d k)
        ])
      ]

  -- The loop reports no error only if it tried nothing and came with none.
  pub try_ips-ne-nil :
      (confirmed : Ip) (ips : List Ip) (e : E)
      → try_ips connect confirmed ips (some e) ≢ failed none
  unfolding try_ips
  try_ips-ne-nil confirmed [] e h = cc
  try_ips-ne-nil confirmed (x ∷ ips) e h = elim (Bool-cases (ip_equal x confirmed)) [
    | inl skip ↦ try_ips-ne-nil confirmed ips e (rw skip at h)
    | inr try ↦ elim (Result-cases (connect x)) [
      | inl (c, p) ↦ cc (rw (try, p) at h)
      | inr (e', p) ↦ try_ips-ne-nil confirmed ips e' (rw (try, p) at h)
    ]
  ]

  pub try_ips-nil :
      (x : Ip) (ips : List Ip) (last : Option E)
      → ip_equal x nil_ip ≡ false
      → try_ips connect nil_ip (x ∷ ips) last ≢ failed none
  unfolding try_ips
  try_ips-nil x ips last d h = elim (Result-cases (connect x)) [
    | inl (c, p) ↦ cc (rw (d, p) at h)
    | inr (e, p) ↦ try_ips-ne-nil nil_ip ips e (rw (d, p) at h)
  ]

  -- A connection comes from an address that was tried.
  pub try_ips-from :
      (confirmed : Ip) (ips : List Ip) (last : Option E) (c : C)
      → try_ips connect confirmed ips last ≡ connected c
      → (ip : Ip) × (has_ip ips ip ≡ true) × (connect ip ≡ ok c)
  unfolding try_ips has_ip
  try_ips-from confirmed [] last c h = cc
  try_ips-from confirmed (x ∷ ips) last c h = elim (Bool-cases (ip_equal x confirmed)) [
    | inl skip ↦
        let (ip, m, k) = try_ips-from confirmed ips last c (rw skip at h) in (ip, ground arith, k)
    | inr try ↦ elim (Result-cases (connect x)) [
      | inl (c', p) ↦ (x, ground (arith, ip_equal_refl x), p ∙ from_connected (rw (try, p) at h))
      | inr (e, p) ↦
          let (ip, m, k) = try_ips-from confirmed ips (some e) c (rw (try, p) at h) in
          (ip, ground arith, k)
    ]
  ]
