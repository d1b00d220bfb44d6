-- ===== src/Doh/Query/Ids.antt =====
-- `doQuery` returns, gives the response the ID of the query, and leaves the caller's slice alone.
use Prim.Native.String.{String}
use localdns_go.Prelude.{
  ℕ, ◌+◌, ◌*◌, ◌≤◌, ◌<◌, ◌≡◌, refl, ap, ◌∙◌, inl, inr, Option, none, some, List, [], ◌∷◌, length,
  Result, ok, err, ltb, Bool-cases, arith, ◌==◌,
}
use localdns_go.Prelude.Words.{Bytes, hi_byte, lo_byte}
use localdns_go.Net.Ip.{Ip}
use localdns_go.Doh.Message.{Dns, HasHeader}
use localdns_go.Doh.Padding.{Padded, same_slice, new_slice, add_edns_padding}
use localdns_go.Doh.Padding.Header.{same_slice-length, new_slice-header}
use localdns_go.Doh.Query.{
  QueryEnv, Exchange, do_failed, body_failed, replied, Resolver, Outcome, do_query, failed_with,
  send_with, send_padded, pad_and_send, after_request, exchange_result, check_response, conclude,
  status_ok, Request, new_request,
}
use localdns_go.Doh.Query.Course.{short, resting, unpadded, unsent, sent, Sent-id, do_query-Course}

module _ {E Q H B : Type 0} (d : Dns E Q H B) (law : HasHeader d) (resolve : String → List Ip)
    (host : String) (v : QueryEnv E) (r : Resolver) where
  send_padded_total :
      (own : Option Bytes) (b : Bytes)
      → 12 ≤ length b
      → (o : Outcome E) × (send_padded d resolve host v r own b ≡ some o)
  unfolding send_padded
  send_padded_total own [] h = absurd (omega arith)
  send_padded_total own (x ∷ []) h = absurd (omega arith)
  send_padded_total own (h ∷ l ∷ rest) len =
      (send_with d resolve host v r _ _ _ _ _ v.request_error, refl)

  pad_and_send_total :
      (q : Bytes) (p : Result E Padded)
      → add_edns_padding d q ≡ p
      → (o : Outcome E) × (pad_and_send d resolve host v r q p ≡ some o)
  unfolding pad_and_send
  pad_and_send_total q (err e) a = (_, refl)
  pad_and_send_total q (ok same_slice) a = send_padded_total none q (same_slice-length d law q a)
  pad_and_send_total q (ok (new_slice b)) a =
      send_padded_total (some q) b ((new_slice-header d law q b a).0)

  -- Given that messages have headers, `doQuery` never panics: it returns on every query, whatever the
  -- clock, the request and the exchange.
  pub do_query_total : (q : Bytes) → (o : Outcome E) × (do_query d resolve host v q r ≡ some o)
  unfolding do_query
  do_query_total q = elim (Bool-cases (ltb (length q) 2)) [
    | inl few ↦ rw few (_, refl)
    | inr enough ↦ rw enough (elim (Bool-cases (ltb v.now r.hangover_expiration)) [
      | inl rest ↦ rw rest (_, refl)
      | inr awake ↦ rw awake (pad_and_send_total q (add_edns_padding d q) refl)
    ])
  ]

  -- The reply that a successful exchange brought, and what becomes of it.
  record Accepts (id : ℕ) (x : Exchange E) (response : Option Bytes) : Type 0 where
    h0 : ℕ
    l0 : ℕ
    rest : Bytes
    final : String
    reply : x ≡ replied (h0 ∷ l0 ∷ rest) status_ok final
    zero_id : h0 * 256 + l0 ≡ 0
    answer : response ≡ some (hi_byte id ∷ lo_byte id ∷ rest)

  good-Accepts :
      (id : ℕ) (q query body : Bytes) (code : ℕ) (final : String)
      → code ≡ status_ok
      → (after_request d resolve v r id q query (some body, final, none)).qerr ≡ none
      → Accepts id
          (replied body code final)
          (after_request d resolve v r id q query (some body, final, none)).response
  unfolding after_request check_response conclude
  good-Accepts id q query [] code final c h = cc
  good-Accepts id q query (b ∷ []) code final c h = cc
  good-Accepts id q query (h0 ∷ l0 ∷ rest) code final c h = elim (Bool-cases (h0 * 256 + l0 == 0)) [
    | inl zero_id ↦ rw zero_id (record {
      h0 = h0;
      l0 = l0;
      rest = rest;
      final = final;
      reply = ap (λ k. replied (h0 ∷ l0 ∷ rest) k final) c;
      zero_id = ground arith;
      answer = refl;
    })
    | inr other ↦ cc (rw other at h)
  ]

  after_request-Accepts :
      (id : ℕ) (q query : Bytes) (x : Exchange E)
      → (after_request d resolve v r id q query (exchange_result host x)).qerr ≡ none
      → Accepts id x (after_request d resolve v r id q query (exchange_result host x)).response
  unfolding after_request exchange_result check_response
  after_request-Accepts id q query (do_failed e) h = cc
  after_request-Accepts id q query (body_failed e) h = cc
  after_request-Accepts id q query (replied body code final) h =
      elim (Bool-cases (code == status_ok)) [
        | inl good ↦ rw good (good-Accepts id q query body code final (ground arith) (rw good at h))
        | inr bad ↦ cc (rw bad at h)
      ]

  -- Given that messages have headers: if `doQuery` reports no error on a query that starts with
  -- the bytes `h` and `l`, then the server's reply to the request that was posted was an HTTP 200 with a
  -- zero ID, and the response is that reply with `h` and `l` in front.
  pub response_has_query_id :
      (h l : ℕ) (tail : Bytes) (o : Outcome E)
      → h < 256
      → l < 256
      → do_query d resolve host v (h ∷ l ∷ tail) r ≡ some o
      → o.qerr ≡ none
      → (request : Request) × (rest : Bytes) × (final : String) × (o.posted ≡ some request)
        × (v.exchange request ≡ replied (0 ∷ 0 ∷ rest) status_ok final)
        × (o.response ≡ some (h ∷ l ∷ rest))
  unfolding failed_with
  response_has_query_id h l tail o bh bl run good =
      elim (do_query-Course d resolve host v (h ∷ l ∷ tail) r o run) [
        | short few e ↦ absurd (omega arith)
        | resting len w e ↦ cc (rw e at good)
        | unpadded x a e ↦ cc (rw e at good)
        | unsent own h' l' rest x s bad e ↦ cc (rw e at good)
        | sent own h' l' rest s fine rested e ↦
            let (hi, lo) = Sent-id d resolve host law h l tail h' l' rest bh bl s in
            let a =
              after_request-Accepts (h' * 256 + l') _ _ (v.exchange (new_request (0 ∷ 0 ∷ rest)))
                (rw e at good) in
            let h0 : a.h0 ≡ 0 = omega (arith, a.zero_id) in
            let l0 : a.l0 ≡ 0 = omega (arith, a.zero_id) in
            (
              new_request (0 ∷ 0 ∷ rest),
              a.rest,
              a.final,
              ap (λ (z : Outcome E). z.posted) e,
              a.reply ∙ cc (h0, l0),
              ap (λ (z : Outcome E). z.response) e ∙ a.answer ∙ cc (hi, lo),
            )
      ]
