-- ===== src/Doh/Padding/Block.antt =====
-- The sizes that padding leads to.
use localdns_go.Prelude.{
  ℕ, zero, suc, ◌⊎◌, ◌+◌, ◌-◌, ◌%◌, ◌<◌, ◌≡◌, ◌≢◌, ◌↔◌, refl, sym, ap, ◌∙◌, Bool, true, false,
  Option, none, some, List, [], ◌∷◌, ◌++◌, length, arith, ok, Result-cases, Bool-cases, inl, inr,
  length-replicate,
}
use native.Mathlib.Nat.{mod-lt, mod-eq_of_lt, mod_self, mod-add-mod, add-zero}
use localdns_go.Prelude.Words.{Bytes}
use localdns_go.Doh.Message.{EdnsOption, opt_resource, Resource, Message, Dns}
use localdns_go.Doh.Padding.{
  compute_padding_size, get_padding, same_slice, new_slice, last_opt, has_padding, add_edns_padding,
  with_option, pack_new, pad_to_block, pad_message, with_opt, later_or,
}

-- The rest that a block lacks, from the rest that the message leaves.
lacking : ℕ → ℕ → ℕ
lacking r b = (b - r) % b

lacking_cases :
    (r b : ℕ) → r < b → ((r ≡ 0) × (lacking r b ≡ 0)) ⊎ ((0 < r) × (lacking r b ≡ b - r))
unfolding lacking
lacking_cases zero b h =
    let whole : b - 0 ≡ b = omega arith in inl (refl, ap (λ t. t % b) whole ∙ mod_self b)
lacking_cases (suc r) b h = inr (omega arith, mod-eq_of_lt (omega arith))

lacking_lem :
    (n b k : ℕ)
    → 0 < b
    → ((n + lacking (n % b) b) % b ≡ 0)
      × (lacking (n % b) b < b)
      × (k < lacking (n % b) b → (n + k) % b ≢ 0)
lacking_lem n b k h = elim (lacking_cases (n % b) b (mod-lt n h)) [
  | inl (none_left, e) ↦ rw e (rw add-zero (none_left, h, λ lt. absurd (omega arith)))
  | inr (some_left, e) ↦
      let r = n % b in
      let full : r + (b - r) ≡ b = omega (arith, mod-lt n h) in
      rw e (
        sym (mod-add-mod n b (b - r)) ∙ ap (λ t. t % b) full ∙ mod_self b,
        omega arith,
        λ lt z.
            absurd (
              omega (arith, mod-add-mod n b k ∙ z, mod-eq_of_lt {n = r + k} {m = b} (omega arith))),
      )
]

-- For every positive block size the padding, with its four bytes of header, brings the message to a
-- multiple of the block size, and it is shorter than a block.
pub compute_padding_size_lem :
    (msg_len block_size : ℕ)
    → 0 < block_size
    → ((msg_len + 4 + compute_padding_size msg_len block_size) % block_size ≡ 0)
      × (compute_padding_size msg_len block_size < block_size)
unfolding compute_padding_size lacking
compute_padding_size_lem msg_len block_size h =
    let (fills, fits, least) = lacking_lem (msg_len + 4) block_size 0 h in (fills, fits)

-- For a positive block size, no padding shorter than the computed one brings the message, with the
-- four bytes of header, to a multiple of the block size.
pub compute_padding_size_least :
    (msg_len block_size k : ℕ)
    → 0 < block_size
    → k < compute_padding_size msg_len block_size
    → (msg_len + 4 + k) % block_size ≢ 0
unfolding compute_padding_size lacking
compute_padding_size_least msg_len block_size k h lt =
    let (fills, fits, least) = lacking_lem (msg_len + 4) block_size k h in least lt

-- The message as unpacked carries a padding option in its last OPT resource.
abbrev pub is_padded : Option (List EdnsOption) → Bool
is_padded none = false
is_padded (some options) = has_padding options

last_opt-concat :
    {H B : Type 0} (rs : List (Resource H B)) (h : H)
    → last_opt (rs ++ record { header = h; body = opt_resource [] } ∷ []) ≡ some []
unfolding last_opt
last_opt-concat [] h = refl
last_opt-concat (r ∷ rs) h = rw (last_opt-concat rs h, later_or)

module _ {E Q H B : Type 0} (d : Dns E Q H B) where
  -- RFC 6891, 6.1.2: an option of an OPT resource takes four bytes and its data on the wire.
  pub record AddsOptions : Type 0 where
    pub option_size :
        (o : EdnsOption) (m : Message Q H B) (b b' : Bytes)
        → last_opt m.additionals ≢ none
        → d.pack m ≡ ok b
        → d.pack (with_option d o m) ≡ ok b'
        → length b' ≡ length b + 4 + length o.payload

  pub pack_new-eq-ok :
      (m : Message Q H B) (b : Bytes) → pack_new d m ≡ ok (new_slice b) → d.pack m ≡ ok b
  unfolding pack_new
  pack_new-eq-ok m b h = ground arith

  pack_new-ne-same_slice : (m : Message Q H B) → pack_new d m ≢ ok same_slice
  unfolding pack_new
  pack_new-ne-same_slice m h = ground arith

  pad_to_block-ne-same_slice : (m : Message Q H B) → pad_to_block d m ≢ ok same_slice
  unfolding pad_to_block
  pad_to_block-ne-same_slice m h = elim (Result-cases (d.pack m)) [
    | inl (c, p) ↦
        pack_new-ne-same_slice (with_option d (get_padding (length c)) m)
          (rw (p, pad_to_block) at h)
    | inr (e, p) ↦ cc (rw (p, pad_to_block) at h)
  ]

  length-get_padding : (n : ℕ) → length (get_padding n).payload ≡ compute_padding_size n 128
  unfolding get_padding
  length-get_padding n = length-replicate (compute_padding_size n 128) 0

  pad_to_block-multiple :
      AddsOptions
      → (m : Message Q H B) (b : Bytes) → last_opt m.additionals ≢ none
      → pad_to_block d m ≡ ok (new_slice b)
      → length b % 128 ≡ 0
  unfolding pad_to_block
  pad_to_block-multiple adds m b has h = elim (Result-cases (d.pack m)) [
    | inl (c, p) ↦
        let o = get_padding (length c) in
        let size =
          adds.option_size o m c b has p
            (pack_new-eq-ok (with_option d o m) b (rw (p, pad_to_block) at h)) in
        let total : length b ≡ length c + 4 + compute_padding_size (length c) 128 =
          omega (arith, size, length-get_padding (length c)) in
        rw total ((compute_padding_size_lem (length c) 128 (omega arith)).0)
    | inr (e, p) ↦ cc (rw (p, pad_to_block) at h)
  ]

  last_opt-with_opt : (m : Message Q H B) (h : H) → last_opt (with_opt d m h).additionals ≡ some []
  unfolding with_opt
  last_opt-with_opt m h = last_opt-concat m.additionals h

  pad_message-multiple :
      AddsOptions
      → (found : Option (List EdnsOption)) (m : Message Q H B) (b : Bytes)
      → last_opt m.additionals ≡ found
      → pad_message d found m ≡ ok (new_slice b)
      → length b % 128 ≡ 0
  unfolding pad_message
  pad_message-multiple adds (some options) m b e h = elim (Bool-cases (has_padding options)) [
    | inl padded ↦ cc (rw padded at h)
    | inr bare ↦ pad_to_block-multiple adds m b (λ z. cc (z, e)) (rw bare at h)
  ]
  pad_message-multiple adds none m b e h = elim (Result-cases d.edns_header) [
    | inl (header, p) ↦
        pad_to_block-multiple adds (with_opt d m header) b (λ z. cc (z, last_opt-with_opt m header))
          (rw (p, pad_message) at h)
    | inr (error, p) ↦ cc (rw (p, pad_message) at h)
  ]

  -- Given that an option adds its four bytes of header and its data to a packed message with an
  -- OPT resource: if `AddEdnsPadding` returns a new slice, and not the query itself, then that
  -- slice fills whole blocks of 128 bytes.
  pub add_edns_padding-multiple :
      AddsOptions → (raw b : Bytes) → add_edns_padding d raw ≡ ok (new_slice b) → length b % 128 ≡ 0
  unfolding add_edns_padding
  add_edns_padding-multiple adds raw b h = elim (Result-cases (d.unpack raw)) [
    | inl (m, p) ↦
        pad_message-multiple adds (last_opt m.additionals) m b refl (rw (p, add_edns_padding) at h)
    | inr (e, p) ↦ cc (rw (p, add_edns_padding) at h)
  ]

  pad_message-same_slice :
      (found : Option (List EdnsOption)) (m : Message Q H B)
      → (pad_message d found m ≡ ok same_slice) ↔ (is_padded found ≡ true)
  unfolding pad_message
  pad_message-same_slice (some options) m = elim (Bool-cases (has_padding options)) [
    | inl padded ↦ rw padded ((λ _. refl), (λ _. refl))
    | inr bare ↦ rw bare ((λ h. absurd (pad_to_block-ne-same_slice m h)), (λ h. cc))
  ]
  pad_message-same_slice none m = elim (Result-cases d.edns_header) [
    | inl (header, p) ↦
        rw (p, pad_message)
          ((λ h. absurd (pad_to_block-ne-same_slice (with_opt d m header) h)), (λ h. cc))
    | inr (error, p) ↦ rw (p, pad_message) ((λ h. cc), (λ h. cc))
  ]

  -- A query that unpacks is returned as it is exactly if its last OPT resource has a padding option.
  pub add_edns_padding-same_slice :
      (raw : Bytes) (m : Message Q H B)
      → d.unpack raw ≡ ok m
      → (add_edns_padding d raw ≡ ok same_slice) ↔ (is_padded (last_opt m.additionals) ≡ true)
  unfolding add_edns_padding
  add_edns_padding-same_slice raw m p =
      rw (p, add_edns_padding) (pad_message-same_slice (last_opt m.additionals) m)
