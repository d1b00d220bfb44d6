-- ===== src/Net/Ip/Same.antt =====
-- `Equal` is equality of the 16-byte forms, hence an equivalence.
use localdns_go.Prelude.{
  ◌≡◌, ◌≢◌, ◌↔◌, refl, sym, ap, ◌∙◌, true, false, ◌&&◌, ◌∷◌, ◌++◌, length, take, drop, ◌==◌, arith,
  if◌then◌else◌, take-append-drop, Bool-cases, inl, inr,
}
use localdns_go.Prelude.Words.{Bytes}
use localdns_go.Net.Ip.{Ip, v4_in_v6_prefix, bytes_equal, is_mapped_form, ip_equal}

pub bytes_equal_iff : (a b : Bytes) → (bytes_equal a b ≡ true) ↔ (a ≡ b)
unfolding bytes_equal
bytes_equal_iff (x ∷ a) (y ∷ b) = ground (arith, bytes_equal_iff a b)
bytes_equal_iff _ _ = ground arith

-- The 16-byte form of an IPv4 address; any other slice as it is.
abbrev pub to16 : Ip → Ip
to16 ip = if length ip == 4 then v4_in_v6_prefix ++ ip else ip

is_mapped_form_iff : (v4 v6 : Ip) → (is_mapped_form v4 v6 ≡ true) ↔ (v4_in_v6_prefix ++ v4 ≡ v6)
is_mapped_form_iff v4 v6 = (
  (λ h. rw (← take-append-drop 12 v6) (
      ground
        (arith, bytes_equal_iff (take 12 v6) v4_in_v6_prefix, bytes_equal_iff v4 (drop 12 v6)))),
  (λ e.
      rw (← e)
        (ground (arith, bytes_equal_iff v4_in_v6_prefix v4_in_v6_prefix, bytes_equal_iff v4 v4))),
)

to16_short : (a : Ip) → length a ≡ 4 → to16 a ≡ v4_in_v6_prefix ++ a
to16_short a h = ground arith

to16_long : (a : Ip) → length a ≢ 4 → to16 a ≡ a
to16_long a h = ground arith

-- How `Equal` branches.
mapped-to16 :
    (a b : Ip) → length a ≡ 4 → length b ≡ 16 → (is_mapped_form a b ≡ true) ↔ (to16 a ≡ to16 b)
mapped-to16 a b ha hb =
    rw (to16_short a ha) (rw (to16_long b (omega arith)) (is_mapped_form_iff a b))

same_length-to16 : (a b : Ip) → length a ≡ length b → (bytes_equal a b ≡ true) ↔ (to16 a ≡ to16 b)
same_length-to16 a b h = elim (Bool-cases (length a == 4)) [
  | inl short ↦
      rw (to16_short a (ground arith))
        (rw (to16_short b (ground arith)) (ground (arith, bytes_equal_iff a b)))
  | inr long ↦
      rw (to16_long a (ground arith)) (rw (to16_long b (ground arith)) (bytes_equal_iff a b))
]

-- Where no branch applies the 16-byte forms have different lengths.
length-to16 : (a : Ip) → length (to16 a) ≡ (if length a == 4 then 16 else length a)
length-to16 a = ground arith

other-to16 :
    (a b : Ip)
    → length a ≢ length b
    → (length a == 4 && length b == 16) ≡ false
    → (length a == 16 && length b == 4) ≡ false
    → to16 a ≢ to16 b
other-to16 a b h1 h2 h3 e =
    let lengths : length (to16 a) ≡ length (to16 b) = ap length e in
    ground (arith, length-to16 a, length-to16 b)

swap_sides : {P Q : Ip} {B : Type 0} → (B ↔ (P ≡ Q)) → (B ↔ (Q ≡ P))
swap_sides e = ((λ b. sym (e.0 b)), (λ p. e.1 (sym p)))

-- `a.Equal(b)` holds exactly when the two have the same 16-byte form, whatever their lengths.
pub ip_equal_iff : (a b : Ip) → (ip_equal a b ≡ true) ↔ (to16 a ≡ to16 b)
unfolding ip_equal
ip_equal_iff a b = elim (Bool-cases (length a == length b)) [
  | inl e ↦ rw e (same_length-to16 a b (ground arith))
  | inr n1 ↦ rw n1 (elim (Bool-cases (length a == 4 && length b == 16)) [
    | inl e ↦ rw e (mapped-to16 a b (ground arith) (ground arith))
    | inr n2 ↦ rw n2 (elim (Bool-cases (length a == 16 && length b == 4)) [
      | inl e ↦ rw e (swap_sides (mapped-to16 b a (ground arith) (ground arith)))
      | inr n3 ↦ rw n3 ((λ h. cc), (λ e. absurd (other-to16 a b (ground arith) n2 n3 e)))
    ])
  ])
]

pub ip_equal_refl : (a : Ip) → ip_equal a a ≡ true
ip_equal_refl a = (ip_equal_iff a a).1 refl

pub ip_equal_sym : (a b : Ip) → ip_equal a b ≡ true → ip_equal b a ≡ true
ip_equal_sym a b h = (ip_equal_iff b a).1 (sym ((ip_equal_iff a b).0 h))

pub ip_equal_trans : (a b c : Ip) → ip_equal a b ≡ true → ip_equal b c ≡ true → ip_equal a c ≡ true
ip_equal_trans a b c h k = (ip_equal_iff a c).1 ((ip_equal_iff a b).0 h ∙ (ip_equal_iff b c).0 k)
