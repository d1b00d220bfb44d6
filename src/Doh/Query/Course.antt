-- ===== src/Doh/Query/Course.antt =====
-- The ways in which `doQuery` can end, for the proofs about it.
use Prim.Native.String.{String}
use mathlib.Core.Option
use localdns_go.Prelude.{
  some_eq, ℕ, ◌+◌, ◌*◌, ◌≤◌, ◌<◌, ◌≡◌, refl, sym, inl, inr, Option, none, some, List, ◌∷◌, length,
  All, Result, ok, err, ltb, Bool-cases, Option-cases, arith,
}
use localdns_go.Prelude.Words.{Bytes, uint16, hi_byte, lo_byte, hi_byte_of_word, lo_byte_of_word}
use localdns_go.Split.Frames.Fragments.{IsByte}
use localdns_go.Doh.Padding.Header.{new_slice-header}
use localdns_go.Net.Ip.{Ip}
use localdns_go.Doh.Message.{Dns, HasHeader}
use localdns_go.Doh.Padding.{Padded, same_slice, new_slice, add_edns_padding, try_servfail}
use localdns_go.Doh.Query.{
  QueryEnv, Resolver, Outcome, http_error, bad_query, internal_error, query_length, in_hangover,
  callee, do_query, failed_with, send_with, send_padded, pad_and_send, after_request,
  exchange_result, new_request,
}

module _ {E Q H B : Type 0} (d : Dns E Q H B) (resolve : String → List Ip) (host : String) where
  -- The slice that is sent, and the caller's own if that is another one.
  pub data Sent (q : Bytes) : Option Bytes → Bytes → Type 0 where
    in_place : add_edns_padding d q ≡ ok same_slice → Sent q none q
    copied : (b : Bytes) → add_edns_padding d q ≡ ok (new_slice b) → Sent q (some q) b

  Sent-uint16 :
      HasHeader d → {q b : Bytes} {own : Option Bytes} → Sent q own b → uint16 b ≡ uint16 q
  Sent-uint16 law (in_place a) = refl
  Sent-uint16 law {q} (copied b a) = (new_slice-header d law q b a).1

  -- The first two bytes of what is sent are those of the query.
  pub Sent-id :
      HasHeader d
      → (h l : ℕ) (tail : Bytes) {own : Option Bytes} (h' l' : ℕ) (rest : Bytes) → h < 256
      → l < 256
      → Sent (h ∷ l ∷ tail) own (h' ∷ l' ∷ rest)
      → (hi_byte (h' * 256 + l') ≡ h) × (lo_byte (h' * 256 + l') ≡ l)
  Sent-id law h l tail h' l' rest bh bl s =
      let same : h' * 256 + l' ≡ h * 256 + l = some_eq (Sent-uint16 law s) in
      (rw same (hi_byte_of_word h l bh bl), rw same (lo_byte_of_word h l bl))

  -- With the ID back in place, the caller's slice is what it was.
  pub Sent-restored :
      {q : Bytes} {own : Option Bytes} (h l : ℕ) (rest : Bytes)
      → All IsByte q
      → Sent q own (h ∷ l ∷ rest)
      → Option.get_or own (hi_byte (h * 256 + l) ∷ lo_byte (h * 256 + l) ∷ rest) ≡ q
  Sent-restored h l rest b (in_place a) =
      cc (hi_byte_of_word h l b.0 b.1.0, lo_byte_of_word h l b.1.0)
  Sent-restored h l rest b (copied b' a) = refl

  pub data Course (v : QueryEnv E) (q : Bytes) (r : Resolver) (o : Outcome E) : Type 0 where
    short :
        length q < 2
        → o ≡ failed_with d resolve bad_query (query_length (length q)) none r q
        → Course v q r o
    resting :
        2 ≤ length q
        → v.now < r.hangover_expiration
        → o ≡ failed_with d resolve http_error in_hangover (try_servfail d q) r q
        → Course v q r o
    unpadded :
        (e : E)
        → add_edns_padding d q ≡ err e
        → o ≡ failed_with d resolve internal_error (callee e) none r q
        → Course v q r o
    unsent :
        (own : Option Bytes) (h l : ℕ) (rest : Bytes) (e : E)
        → Sent q own (h ∷ l ∷ rest)
        → v.request_error ≡ some e
        → o
          ≡ failed_with d resolve internal_error
              (callee e)
              none
              r
              (Option.get_or own (0 ∷ 0 ∷ rest))
        → Course v q r o
    sent :
        (own : Option Bytes) (h l : ℕ) (rest : Bytes)
        → Sent q own (h ∷ l ∷ rest)
        → v.request_error ≡ none
        → r.hangover_expiration ≤ v.now
        → o
          ≡ record (after_request d resolve v r
              (h * 256 + l)
              (hi_byte (h * 256 + l) ∷ lo_byte (h * 256 + l) ∷ rest)
              (Option.get_or own (hi_byte (h * 256 + l) ∷ lo_byte (h * 256 + l) ∷ rest))
              (exchange_result host (v.exchange (new_request (0 ∷ 0 ∷ rest))))) {
                posted = some (new_request (0 ∷ 0 ∷ rest));
              }
        → Course v q r o

  send_padded-Course :
      (v : QueryEnv E) (q : Bytes) (r : Resolver) (o : Outcome E) (own : Option Bytes) (b : Bytes)
      → Sent q own b
      → r.hangover_expiration ≤ v.now
      → send_padded d resolve host v r own b ≡ some o
      → Course v q r o
  unfolding send_padded
  send_padded-Course v q r o own (h ∷ l ∷ rest) s rested e = elim (Option-cases v.request_error) [
    | inl fine ↦ sent own h l rest s fine rested (some_eq (rw (fine, send_with) at (sym e)))
    | inr (x, bad) ↦ unsent own h l rest x s bad (some_eq (rw (bad, send_with) at (sym e)))
  ]
  send_padded-Course v q r o own _ s rested e = cc

  pad_and_send-Course :
      (v : QueryEnv E) (q : Bytes) (r : Resolver) (o : Outcome E) (p : Result E Padded)
      → add_edns_padding d q ≡ p
      → r.hangover_expiration ≤ v.now
      → pad_and_send d resolve host v r q p ≡ some o
      → Course v q r o
  unfolding pad_and_send
  pad_and_send-Course v q r o (err e) a rested h = unpadded e a (some_eq (sym h))
  pad_and_send-Course v q r o (ok same_slice) a rested h =
      send_padded-Course v q r o none q (in_place a) rested h
  pad_and_send-Course v q r o (ok (new_slice b)) a rested h =
      send_padded-Course v q r o (some q) b (copied b a) rested h

  pub do_query-Course :
      (v : QueryEnv E) (q : Bytes) (r : Resolver) (o : Outcome E)
      → do_query d resolve host v q r ≡ some o
      → Course v q r o
  unfolding do_query
  do_query-Course v q r o h = elim (Bool-cases (ltb (length q) 2)) [
    | inl few ↦ short (ground arith) (some_eq (rw few at (sym h)))
    | inr enough ↦ elim (Bool-cases (ltb v.now r.hangover_expiration)) [
      | inl rest ↦ resting (ground arith) (ground arith) (some_eq (simp (enough, rest) at (sym h)))
      | inr awake ↦
          pad_and_send-Course v q r o (add_edns_padding d q) refl (ground arith)
            (simp (enough, awake) at h)
    ]
  ]
