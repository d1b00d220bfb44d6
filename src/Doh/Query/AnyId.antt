-- ===== src/Doh/Query/AnyId.antt =====
-- What a query over HTTPS posts, and the ID of the query.
use Prim.Native.String.{String}
use mathlib.Core.Option
use localdns_go.Prelude.{
  ℕ, ◌^◌, ◌<◌, ◌≡◌, refl, sym, ap, ◌∙◌, inl, inr, Option, none, some, List, [], ◌∷◌, length, Result,
  ok, err, ltb, Bool-cases,
}
use localdns_go.Prelude.Words.{Bytes}
use localdns_go.Net.Ip.{Ip}
use localdns_go.Doh.Message.{Dns}
use localdns_go.Doh.Padding.{Padded, same_slice, new_slice, add_edns_padding}
use localdns_go.Doh.Padding.AnyId.{
  retag, retag_padded, map_ok, length-retag, PacksId, HasPlainId, add_edns_padding-retag,
}
use localdns_go.Doh.Query.{
  QueryEnv, Resolver, Outcome, Request, new_request, do_query, failed_with, send_padded,
  pad_and_send, send_with,
}

-- the request that a run posts, if it does not panic
abbrev pub posted_by : {E : Type 0} → Option (Outcome E) → Option (Option Request)
posted_by run = Option.map (λ (o : Outcome _). o.posted) run

sends : {E : Type 0} → Option E → Bytes → Option Request
sends (some e) sent = none
sends none sent = some (new_request sent)

module _ {E Q H B : Type 0} (d : Dns E Q H B) (resolve : String → List Ip) (host : String) where
  module _ (v : QueryEnv E) (r : Resolver) where
    posted-send_with :
        (e : Option E) (id : ℕ) (q sent zeroed query : Bytes)
        → (send_with d resolve host v r id q sent zeroed query e).posted ≡ sends e sent
    unfolding send_with failed_with sends
    posted-send_with none id q sent zeroed query = refl
    posted-send_with (some e) id q sent zeroed query = refl

    posted-send_padded :
        (id : ℕ) (own own' : Option Bytes) (b : Bytes)
        → posted_by (send_padded d resolve host v r own (retag id b))
          ≡ posted_by (send_padded d resolve host v r own' b)
    unfolding send_padded retag
    posted-send_padded id own own' [] = refl
    posted-send_padded id own own' (h ∷ []) = refl
    posted-send_padded id own own' (h ∷ l ∷ rest) = ap some (
        posted-send_with v.request_error _ _ (0 ∷ 0 ∷ rest) _ _
        ∙ sym (posted-send_with v.request_error _ _ (0 ∷ 0 ∷ rest) _ _))

    posted-pad_and_send :
        (id : ℕ) (q : Bytes) (p : Result E Padded)
        → posted_by (pad_and_send d resolve host v r (retag id q) (map_ok (retag_padded id) p))
          ≡ posted_by (pad_and_send d resolve host v r q p)
    unfolding pad_and_send retag_padded failed_with
    posted-pad_and_send id q (err e) = refl
    posted-pad_and_send id q (ok same_slice) = posted-send_padded id none none q
    posted-pad_and_send id q (ok (new_slice b)) =
        posted-send_padded id (some (retag id q)) (some q) b

  -- Given that the message package packs the ID of a message into its first two bytes and nowhere else: for
  -- a query that it reads alike with each ID, that is, in which no compressed name points at the ID, a query
  -- that differs from it in the ID only posts the same request in the same state of the resolver and with
  -- the same environment, or neither posts one.
  pub posted-retag :
      PacksId d
      → (v : QueryEnv E) (r : Resolver) (id : ℕ) (q : Bytes) → HasPlainId d q
      → id < 2 ^ 16
      → posted_by (do_query d resolve host v (retag id q) r)
        ≡ posted_by (do_query d resolve host v q r)
  unfolding do_query failed_with
  posted-retag law v r id q plain small =
      rw (length-retag id q) (elim (Bool-cases (ltb (length q) 2)) [
        | inl short ↦ rw short refl
        | inr long ↦ rw long (elim (Bool-cases (ltb v.now r.hangover_expiration)) [
          | inl resting ↦ rw resting refl
          | inr awake ↦ rw awake (
              rw (add_edns_padding-retag d law id small q plain)
                (posted-pad_and_send v r id q (add_edns_padding d q)))
        ])
      ])
