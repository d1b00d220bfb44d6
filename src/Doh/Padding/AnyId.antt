-- ===== src/Doh/Padding/AnyId.antt =====
-- Padding does not look at the ID of a query.
use localdns_go.Prelude.{
  ℕ, ◌^◌, ◌<◌, ◌≡◌, refl, ap, ◌∙◌, Option, none, some, List, [], ◌∷◌, length, Result, ok, err,
  Result-cases, Bool-cases, inl, inr,
}
use localdns_go.Prelude.Words.{Bytes, hi_byte, lo_byte}
use localdns_go.Doh.Message.{EdnsOption, Message, Dns}
use localdns_go.Doh.Padding.{
  Padded, same_slice, new_slice, last_opt, get_padding, has_padding, pack_new, with_option,
  pad_to_block, with_opt, pad_message, add_edns_padding,
}

-- A slice with another ID in front.
unfoldable pub retag : ℕ → Bytes → Bytes
retag id (h ∷ l ∷ rest) = hi_byte id ∷ lo_byte id ∷ rest
retag id b = b

unfoldable pub retag_padded : ℕ → Padded → Padded
retag_padded id same_slice = same_slice
retag_padded id (new_slice b) = new_slice (retag id b)

abbrev pub map_ok {ℓ} : {E : Type 0} {A B : Type ℓ} → (A → B) → Result E A → Result E B
map_ok f (ok a) = ok (f a)
map_ok f (err e) = err e

pub length-retag : (id : ℕ) (b : Bytes) → length (retag id b) ≡ length b
unfolding retag
length-retag id [] = refl
length-retag id (h ∷ []) = refl
length-retag id (h ∷ l ∷ rest) = refl

abbrev pub with_id : {Q H B : Type 0} → ℕ → Message Q H B → Message Q H B
with_id id m = record m { id = id }

module _ {E Q H B : Type 0} where
  -- A message that is packed has its ID in its first two bytes, and nothing else in it depends on the ID.
  pub record PacksId (d : Dns E Q H B) : Type 0 where
    pub pack_with_id :
        (id : ℕ) (m : Message Q H B)
        → id < 2 ^ 16
        → d.pack (with_id id m) ≡ map_ok (retag id) (d.pack m)

  -- A query in which the first two bytes are the ID only: no compressed name points at them. The package
  -- reads the same from it with each ID.
  pub record HasPlainId (d : Dns E Q H B) (q : Bytes) : Type 0 where
    pub unpack_retag :
        (id : ℕ) → id < 2 ^ 16 → d.unpack (retag id q) ≡ map_ok (with_id id) (d.unpack q)

  module _ (d : Dns E Q H B) (law : PacksId d) (id : ℕ) (small : id < 2 ^ 16) where
    pack_new-with_id :
        (m : Message Q H B) → pack_new d (with_id id m) ≡ map_ok (retag_padded id) (pack_new d m)
    unfolding pack_new retag_padded
    pack_new-with_id m = elim (Result-cases (d.pack m)) [
      | inl (b, p) ↦
          let p' : d.pack (with_id id m) ≡ ok (retag id b) =
            law.pack_with_id id m small ∙ ap (map_ok (retag id)) p in
          rw (p, pack_new) (rw (p', pack_new) refl)
      | inr (e, p) ↦
          let p' : d.pack (with_id id m) ≡ err e =
            law.pack_with_id id m small ∙ ap (map_ok (retag id)) p in
          rw (p, pack_new) (rw (p', pack_new) refl)
    ]

    pad_to_block-with_id :
        (m : Message Q H B)
        → pad_to_block d (with_id id m) ≡ map_ok (retag_padded id) (pad_to_block d m)
    unfolding pad_to_block with_option
    pad_to_block-with_id m = elim (Result-cases (d.pack m)) [
      | inl (b, p) ↦
          let p' : d.pack (with_id id m) ≡ ok (retag id b) =
            law.pack_with_id id m small ∙ ap (map_ok (retag id)) p in
          rw (p, pad_to_block)
            (rw (p', pad_to_block)
              (ap (λ n. pack_new d (with_option d (get_padding n) (with_id id m)))
                  (length-retag id b)
                ∙ pack_new-with_id (with_option d (get_padding (length b)) m)))
      | inr (e, p) ↦
          let p' : d.pack (with_id id m) ≡ err e =
            law.pack_with_id id m small ∙ ap (map_ok (retag id)) p in
          rw (p, pad_to_block) (rw (p', pad_to_block) refl)
    ]

    pad_message-with_id :
        (found : Option (List EdnsOption)) (m : Message Q H B)
        → pad_message d found (with_id id m) ≡ map_ok (retag_padded id) (pad_message d found m)
    unfolding pad_message with_opt retag_padded
    pad_message-with_id (some options) m = elim (Bool-cases (has_padding options)) [
      | inl padded ↦ rw padded refl
      | inr bare ↦ rw bare (pad_to_block-with_id m)
    ]
    pad_message-with_id none m = elim (Result-cases d.edns_header) [
      | inl (header, p) ↦ rw (p, pad_message) (pad_to_block-with_id (with_opt d m header))
      | inr (e, p) ↦ rw (p, pad_message) refl
    ]

    pub add_edns_padding-retag :
        (q : Bytes)
        → HasPlainId d q
        → add_edns_padding d (retag id q) ≡ map_ok (retag_padded id) (add_edns_padding d q)
    unfolding add_edns_padding
    add_edns_padding-retag q plain = elim (Result-cases (d.unpack q)) [
      | inl (m, p) ↦
          let p' : d.unpack (retag id q) ≡ ok (with_id id m) =
            plain.unpack_retag id small ∙ ap (map_ok (with_id id)) p in
          rw (p, add_edns_padding)
            (rw (p', add_edns_padding) (pad_message-with_id (last_opt m.additionals) m))
      | inr (e, p) ↦
          let p' : d.unpack (retag id q) ≡ err e =
            plain.unpack_retag id small ∙ ap (map_ok (with_id id)) p in
          rw (p, add_edns_padding) (rw (p', add_edns_padding) refl)
    ]
