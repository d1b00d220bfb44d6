-- ===== src/Doh/Query/Failing.antt =====
-- The response of a query over HTTPS that fails.
use Prim.Native.String.{String}
use localdns_go.Prelude.{
  ℕ, ◌+◌, ◌*◌, ◌^◌, ◌<◌, ◌≡◌, refl, sym, ap, ◌∙◌, subst, Option, none, some, some_eq, List, [], ◌∷◌,
  All, ok, ok_eq, arith,
}
use localdns_go.Prelude.Words.{Bytes, uint16, hi_byte, lo_byte, hi_byte_of_word, lo_byte_of_word}
use localdns_go.Split.Frames.Fragments.{IsByte}
use localdns_go.Net.Ip.{Ip}
use localdns_go.Doh.Message.{Message, Dns, HasHeader}
use localdns_go.Doh.Padding.{try_servfail}
use localdns_go.Doh.Padding.Header.{new_slice-Repacks}
use localdns_go.Doh.Padding.Servfail.{RoundTrips, IsServfailOf, try_servfail-IsServfailOf}
use localdns_go.Doh.Query.{
  QueryEnv, QueryError, Resolver, Outcome, do_query, failed_with, after_request, conclude,
  check_response,
}
use localdns_go.Doh.Query.Course.{
  short, resting, unpadded, unsent, sent, Sent, in_place, copied, do_query-Course,
}

restored_bytes :
    (h l : ℕ) (rest : Bytes)
    → All IsByte (h ∷ l ∷ rest)
    → hi_byte (h * 256 + l) ∷ lo_byte (h * 256 + l) ∷ rest ≡ h ∷ l ∷ rest
restored_bytes h l rest b = cc (hi_byte_of_word h l b.0 b.1.0, lo_byte_of_word h l b.1.0)

small_id : (q : Bytes) (id : ℕ) → All IsByte q → uint16 q ≡ some id → id < 2 ^ 16
small_id [] id b e = cc
small_id (h ∷ []) id b e = cc
small_id (h ∷ l ∷ rest) id b e = rw (sym (some_eq e)) (omega arith)

module _ {E Q H B : Type 0} (d : Dns E Q H B) (law : HasHeader d) (back : RoundTrips d)
    (resolve : String → List Ip) (host : String) (q : Bytes) (m : Message Q H B)
    (bytes : All IsByte q) (asked : d.unpack q ≡ ok m) where
  -- The slice that was sent, with its ID back in place, is a message that asks the same.
  AsksSame : Bytes → Type 0
  AsksSame b =
      (m' : Message Q H B) × (d.unpack b ≡ ok m') × (m'.id ≡ m.id) × (m'.questions ≡ m.questions)

  Sent-AsksSame :
      (own : Option Bytes) (b : Bytes) → Sent d resolve host q own b → All IsByte b × AsksSame b
  unfolding AsksSame
  Sent-AsksSame own b (in_place a) = (bytes, (m, asked, refl, refl))
  Sent-AsksSame own b (copied b' a) =
      let (m0, p, (m1, packs, same, questions)) = new_slice-Repacks d q b a in
      let same_message : m0 ≡ m = ok_eq (sym p ∙ asked) in
      let small : m1.id < 2 ^ 16 =
        subst (λ n. n < 2 ^ 16) (sym (same ∙ ap (λ (z : Message Q H B). z.id) same_message))
          (small_id q m.id bytes (law.unpack_id q m asked)) in
      let (m2, u, kept) = back.and_back m1 b small packs in
      (
        back.to_bytes m1 b small packs,
        (
          m2,
          u,
          kept.same_id ∙ same ∙ ap (λ (z : Message Q H B). z.id) same_message,
          kept.same_questions ∙ questions ∙ ap (λ (z : Message Q H B). z.questions) same_message,
        ),
      )

  answered :
      (b : Bytes) (response : Bytes)
      → AsksSame b
      → try_servfail d b ≡ some response
      → IsServfailOf d m response
  unfolding AsksSame
  answered b response (m', u, same, questions) e =
      let small =
        subst (λ n. n < 2 ^ 16) (sym same) (small_id q m.id bytes (law.unpack_id q m asked)) in
      let s = try_servfail-IsServfailOf d back b response m' small u e in
      record {
        message = s.message;
        unpacks = s.unpacks;
        same_id = s.same_id ∙ same;
        same_questions = s.same_questions ∙ questions;
        responds = s.responds;
        recursion = s.recursion;
        failure = s.failure;
      }

  module _ (v : QueryEnv E) (r : Resolver) where
    concluded :
        (name : String) (r' : Resolver) (b query response : Bytes)
        (x : Option Bytes × Option (QueryError E)) (e : QueryError E)
        → (conclude d resolve v name r' b x query).qerr ≡ some e
        → (conclude d resolve v name r' b x query).response ≡ some response
        → try_servfail d b ≡ some response
    unfolding conclude
    concluded name r' b query response (y, none) e failing answer = cc
    concluded name r' b query response (y, some e') e failing answer = answer

    -- Given that packing and unpacking keep the header and the questions of a message: when `doQuery`
    -- fails on a query of bytes that unpacks and yet has a response, that response is a SERVFAIL with the ID
    -- and the questions of the query.
    pub failing-IsServfailOf :
        (o : Outcome E) (e : QueryError E) (response : Bytes)
        → do_query d resolve host v q r ≡ some o
        → o.qerr ≡ some e
        → o.response ≡ some response
        → IsServfailOf d m response
    unfolding failed_with after_request AsksSame
    failing-IsServfailOf o e response run failing answer =
        elim (do_query-Course d resolve host v q r o run) [
          | short few same ↦ cc (rw same at answer)
          | resting len w same ↦ answered q response (m, asked, refl, refl) (rw same at answer)
          | unpadded x a same ↦ cc (rw same at answer)
          | unsent own h l rest x s bad same ↦ cc (rw same at answer)
          | sent own h l rest s fine rested same ↦
              let (sent_bytes, asks) = Sent-AsksSame own (h ∷ l ∷ rest) s in
              let servfail =
                concluded _ _ _ _ response (check_response _ _ _) e (rw same at failing)
                  (rw same at answer) in
              answered (h ∷ l ∷ rest) response asks
                (ap (try_servfail d) (sym (restored_bytes h l rest sent_bytes)) ∙ servfail)
        ]
