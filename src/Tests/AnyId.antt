-- ===== src/Tests/AnyId.antt =====
-- The ID of a query, with the package that keeps the header.
use localdns_go.Prelude.{
  ℕ, ◌^◌, ◌/◌, ◌<◌, ◌≡◌, refl, ap, inl, inr, none, [], ◌∷◌, length, drop, ok, ltb, Bool-cases,
  arith,
}
use localdns_go.Prelude.Words.{Bytes, word_of_bytes, hi_byte, lo_byte}
use localdns_go.Doh.Message.{Message}
use localdns_go.Doh.Padding.AnyId.{retag, map_ok, with_id, PacksId, HasPlainId}
use localdns_go.Doh.Query.{QueryEnv, replied, do_query}
use localdns_go.Doh.Query.AnyId.{posted_by, posted-retag}
use localdns_go.Tests.Header.{
  header_bytes, header_pack, header_message, header_unpack, header_toy, one_question, awake,
  no_names,
}

unpack_retag :
    (id : ℕ) (b : Bytes)
    → id < 2 ^ 16
    → header_unpack (retag id b) ≡ map_ok (with_id id) (header_unpack b)
unfolding header_unpack header_message retag
unpack_retag id [] small = refl
unpack_retag id (h ∷ []) small = refl
unpack_retag id (h ∷ l ∷ []) small = refl
unpack_retag id (h ∷ l ∷ a ∷ []) small = refl
unpack_retag id (h ∷ l ∷ a ∷ b ∷ []) small = refl
unpack_retag id (h ∷ l ∷ a ∷ b ∷ c ∷ []) small = refl
unpack_retag id (h ∷ l ∷ a ∷ b ∷ c ∷ n ∷ rest) small = elim (Bool-cases (ltb (length rest) 6)) [
  | inl few ↦ rw few refl
  | inr enough ↦ rw enough (ap (λ i. ok (header_message i a b c n)) (word_of_bytes id small))
]

pack_with_id :
    (id : ℕ) (m : Message Unit Unit Unit)
    → id < 2 ^ 16
    → header_pack (with_id id m) ≡ map_ok (retag id) (header_pack m)
unfolding header_pack header_bytes retag
pack_with_id id m small = elim (Bool-cases (ltb (length m.questions) 256)) [
  | inl few ↦
      let high : id / 256 ≡ hi_byte id = omega arith in
      rw few (ap (λ h. ok (h ∷ lo_byte id ∷ drop 2 (header_bytes m))) high)
  | inr many ↦ rw many refl
]

header_toy-PacksId : PacksId header_toy
unfolding header_toy
header_toy-PacksId = record { pack_with_id = pack_with_id }

one_question-HasPlainId : HasPlainId header_toy one_question
unfolding header_toy
one_question-HasPlainId = record { unpack_retag = λ id small. unpack_retag id one_question small }

abbrev answering : QueryEnv ℕ
answering = record {
  now = 5;
  request_error = none;
  server = none;
  exchange = λ request. replied [] 503 "a";
  later = 6;
}

posted-retag_example :
    posted_by (do_query header_toy no_names "a" answering (retag 770 one_question) awake)
    ≡ posted_by (do_query header_toy no_names "a" answering one_question awake)
posted-retag_example =
    posted-retag header_toy no_names "a" header_toy-PacksId answering awake 770 one_question
      one_question-HasPlainId (omega arith)
