-- ===== src/Tests/Failing.antt =====
-- A query that fails.
use localdns_go.Prelude.{
  ℕ, ◌+◌, ◌*◌, ◌/◌, ◌%◌, ◌≤◌, ◌<◌, ◌≡◌, refl, ap, subst, inl, inr, Bool, true, false, none, some,
  List, [], ◌∷◌, length, replicate, All, ok, ok_eq, ltb, ◌==◌, Bool-cases, arith,
}
use localdns_go.Prelude.Words.{Bytes, uint16}
use localdns_go.Split.Frames.Fragments.{IsByte}
use localdns_go.Doh.Message.{Message, HasHeader}
use localdns_go.Doh.Padding.{
  add_edns_padding, try_servfail, servfail_message, rcode_server_failure, last_opt, has_padding,
}
use localdns_go.Doh.Padding.Servfail.{RoundTrips, IsServfailOf}
use localdns_go.Doh.Query.{
  QueryEnv, Outcome, replied, do_query, failed_with, internal_error, nonzero_id, http_error,
  http_failed, send_padded, after_request, exchange_result, check_response, conclude,
}
use localdns_go.Doh.Query.Failing.{failing-IsServfailOf}
use localdns_go.Tests.Header.{
  bit, header_bytes, header_pack, header_message, header_unpack, header_toy, one_question, awake,
  no_names,
}
use localdns_go.Tests.Toy.{are_bytes_lem}

packed :
    (m : Message Unit Unit Unit) (b : Bytes)
    → header_pack m ≡ ok b
    → (length m.questions < 256) × (header_bytes m ≡ b)
unfolding header_pack
packed m b e = elim (Bool-cases (ltb (length m.questions) 256)) [
  | inl few ↦ (ground arith, ok_eq (rw few at e))
  | inr many ↦ cc (rw many at e)
]

bit_back : (b : Bool) → (bit b == 1) ≡ b
unfolding bit
bit_back true = refl
bit_back false = refl

bit-IsByte : (b : Bool) → IsByte (bit b)
unfolding bit
bit-IsByte true = omega arith
bit-IsByte false = omega arith

units_back : (us : List (Unit {0})) → replicate (length us) tt ≡ us
units_back [] = refl
units_back (u ∷ us) = ap (λ z. tt ∷ z) (units_back us)

-- the message that `header_bytes` unpacks to
read_back : Message Unit Unit Unit → Message Unit Unit Unit
read_back m =
    header_message (m.id / 256 * 256 + m.id % 256) (bit m.is_response) (bit m.recursion_available)
      (m.rcode % 16) (length m.questions)

header_toy-RoundTrips : RoundTrips header_toy
unfolding header_toy header_bytes read_back header_message
header_toy-RoundTrips = record {
  to_bytes = λ m b small e.
      let (few, same) = packed m b e in
      subst (λ z. All IsByte z) same
        (
          omega arith,
          (
            omega arith,
            (
              bit-IsByte m.is_response,
              (
                bit-IsByte m.recursion_available,
                (
                  omega arith,
                  (
                    few,
                    (
                      omega arith,
                      (omega arith, (omega arith, (omega arith, (omega arith, (omega arith, tt))))),
                    ),
                  ),
                ),
              ),
            ),
          ),
        );
  and_back = λ m b small e.
      let (few, same) = packed m b e in
      (
        read_back m,
        subst (λ z. header_unpack z ≡ ok (read_back m)) same refl,
        record {
          same_id = omega arith;
          same_kind = bit_back m.is_response;
          same_recursion = bit_back m.recursion_available;
          same_rcode = refl;
          same_questions = units_back m.questions;
        },
      );
}

unpacked :
    (b : Bytes) (m : Message Unit Unit Unit)
    → header_unpack b ≡ ok m
    → (12 ≤ length b) × (uint16 b ≡ some m.id)
unfolding header_unpack header_message
unpacked (h ∷ l ∷ kind ∷ recursion ∷ rcode ∷ count ∷ rest) m e =
    elim (Bool-cases (ltb (length rest) 6)) [
      | inl few ↦ cc (rw few at e)
      | inr enough ↦
          (ground arith, ap (λ (z : Message Unit Unit Unit). some z.id) (ok_eq (rw enough at e)))
    ]
unpacked _ m e = cc

header_toy-HasHeader : HasHeader header_toy
unfolding header_toy header_bytes
header_toy-HasHeader = record {
  unpack_length = λ b m e. (unpacked b m e).0;
  unpack_id = λ b m e. (unpacked b m e).1;
  pack_length = λ m b e. subst (λ z. 12 ≤ length z) (packed m b e).1 (omega arith);
  pack_id = λ m b e. subst (λ z. uint16 z ≡ some m.id) (packed m b e).1 (ap some (omega arith));
}

abbrev unavailable : QueryEnv ℕ
unavailable = record {
  now = 5;
  request_error = none;
  server = none;
  exchange = λ request. replied [] 503 "a";
  later = 6;
}

abbrev failed_run : Outcome ℕ
failed_run = elim (do_query header_toy no_names "a" unavailable one_question awake) [
  | none ↦ failed_with header_toy no_names internal_error nonzero_id none awake []
  | some o ↦ o
]

failing-IsServfailOf_example :
    IsServfailOf header_toy
      (header_message (7 * 256 + 9) 0 0 0 1)
      (7 ∷ 9 ∷ 1 ∷ 1 ∷ 2 ∷ 1 ∷ 0 ∷ 0 ∷ 0 ∷ 0 ∷ 0 ∷ 0 ∷ [])
unfolding header_toy do_query add_edns_padding send_padded last_opt has_padding after_request
    exchange_result check_response conclude try_servfail servfail_message rcode_server_failure
failing-IsServfailOf_example =
    failing-IsServfailOf header_toy header_toy-HasHeader header_toy-RoundTrips no_names "a"
      one_question (header_message (7 * 256 + 9) 0 0 0 1) (are_bytes_lem one_question refl) refl
      unavailable awake failed_run (record { status = http_error; cause = http_failed 503 })
      (7 ∷ 9 ∷ 1 ∷ 1 ∷ 2 ∷ 1 ∷ 0 ∷ 0 ∷ 0 ∷ 0 ∷ 0 ∷ 0 ∷ []) refl refl refl
