-- ===== src/Doh/Padding/Header.antt =====
-- What `AddEdnsPadding` keeps of a query: its ID, in a header of twelve bytes.
use localdns_go.Prelude.{
  ◌≤◌, ◌≡◌, refl, sym, ap, ◌∙◌, Option, none, some, List, length, ok, Result-cases, Bool-cases, inl,
  inr,
}
use localdns_go.Prelude.Words.{Bytes, uint16}
use localdns_go.Doh.Message.{EdnsOption, Message, Dns, HasHeader}
use localdns_go.Doh.Padding.{
  get_padding, same_slice, new_slice, last_opt, has_padding, add_edns_padding, with_option,
  with_opt, pad_to_block, pad_message,
}
use localdns_go.Doh.Padding.Block.{pack_new-eq-ok}

module _ {E Q H B : Type 0} (d : Dns E Q H B) where
  -- The new slice is a packed message with the ID and the questions of the one that was unpacked.
  abbrev pub Repacks : Message Q H B → Bytes → Type 0
  Repacks m b =
      (m' : Message Q H B) × (d.pack m' ≡ ok b) × (m'.id ≡ m.id) × (m'.questions ≡ m.questions)

  pad_to_block-Repacks :
      (m : Message Q H B) (b : Bytes) → pad_to_block d m ≡ ok (new_slice b) → Repacks m b
  unfolding pad_to_block with_option
  pad_to_block-Repacks m b h = elim (Result-cases (d.pack m)) [
    | inl (c, p) ↦ (
      with_option d (get_padding (length c)) m,
      pack_new-eq-ok d (with_option d (get_padding (length c)) m) b (rw (p, pad_to_block) at h),
      refl,
      refl,
    )
    | inr (e, p) ↦ cc (rw (p, pad_to_block) at h)
  ]

  pad_message-Repacks :
      (found : Option (List EdnsOption)) (m : Message Q H B) (b : Bytes)
      → pad_message d found m ≡ ok (new_slice b)
      → Repacks m b
  unfolding pad_message with_opt
  pad_message-Repacks (some options) m b h = elim (Bool-cases (has_padding options)) [
    | inl padded ↦ cc (rw padded at h)
    | inr bare ↦ pad_to_block-Repacks m b (rw bare at h)
  ]
  pad_message-Repacks none m b h = elim (Result-cases d.edns_header) [
    | inl (header, p) ↦ pad_to_block-Repacks (with_opt d m header) b (rw (p, pad_message) at h)
    | inr (e, p) ↦ cc (rw (p, pad_message) at h)
  ]

  pub new_slice-Repacks :
      (q b : Bytes)
      → add_edns_padding d q ≡ ok (new_slice b)
      → (m : Message Q H B) × (d.unpack q ≡ ok m) × Repacks m b
  unfolding add_edns_padding
  new_slice-Repacks q b h = elim (Result-cases (d.unpack q)) [
    | inl (m, p) ↦
        (m, p, pad_message-Repacks (last_opt m.additionals) m b (rw (p, add_edns_padding) at h))
    | inr (e, p) ↦ cc (rw (p, add_edns_padding) at h)
  ]

  module _ (law : HasHeader d) (q : Bytes) where
    pub same_slice-length : add_edns_padding d q ≡ ok same_slice → 12 ≤ length q
    unfolding add_edns_padding
    same_slice-length h = elim (Result-cases (d.unpack q)) [
      | inl (m, p) ↦ law.unpack_length q m p
      | inr (e, p) ↦ cc (rw (p, add_edns_padding) at h)
    ]

    -- A padded copy has a header too, and the ID of the query.
    pub new_slice-header :
        (b : Bytes)
        → add_edns_padding d q ≡ ok (new_slice b)
        → (12 ≤ length b) × (uint16 b ≡ uint16 q)
    new_slice-header b h =
        let (m, p, (m', packs, same, asked)) = new_slice-Repacks q b h in
        (
          law.pack_length m' b packs,
          law.pack_id m' b packs ∙ ap some same ∙ sym (law.unpack_id q m p),
        )
