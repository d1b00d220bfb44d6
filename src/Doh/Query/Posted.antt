-- ===== src/Doh/Query/Posted.antt =====
-- What leaves the device in a query over HTTPS.
use Prim.Native.String.{String}
use localdns_go.Prelude.{
  ◌%◌, ◌≡◌, ◌⊎◌, refl, subst, inl, inr, Option, some, some_eq, List, ◌∷◌, length, drop, ok,
}
use localdns_go.Prelude.Words.{Bytes}
use localdns_go.Net.Ip.{Ip}
use localdns_go.Doh.Message.{Dns}
use localdns_go.Doh.Padding.{same_slice, add_edns_padding}
use localdns_go.Doh.Padding.Block.{AddsOptions, add_edns_padding-multiple}
use localdns_go.Doh.Query.{QueryEnv, Resolver, Outcome, Request, new_request, do_query, failed_with}
use localdns_go.Doh.Query.Course.{
  short, resting, unpadded, unsent, sent, Sent, in_place, copied, do_query-Course,
}

module _ {E Q H B : Type 0} (d : Dns E Q H B) (resolve : String → List Ip) (host : String) where
  -- A message with a zero ID, in whole blocks of 128 bytes or with the rest of a query that was padded.
  pub record IsPrivate (q body : Bytes) : Type 0 where
    pub rest : Bytes
    pub zero_id : body ≡ 0 ∷ 0 ∷ rest
    pub in_blocks :
        (length body % 128 ≡ 0) ⊎ ((add_edns_padding d q ≡ ok same_slice) × (rest ≡ drop 2 q))

  pub Sent-in_blocks :
      AddsOptions d
      → {q b : Bytes} {own : Option Bytes} → Sent d resolve host q own b
      → (length b % 128 ≡ 0) ⊎ ((add_edns_padding d q ≡ ok same_slice) × (drop 2 b ≡ drop 2 q))
  Sent-in_blocks adds (in_place a) = inr (a, refl)
  Sent-in_blocks adds {q} (copied b a) = inl (add_edns_padding-multiple d adds q b a)

  -- Given that an option adds its four bytes of header and its data to a packed message: whatever
  -- `doQuery` posts has a zero ID. Its length is a multiple of 128 bytes, unless the query came with padding
  -- already and is posted as it is, but for its ID.
  pub posted-IsPrivate :
      AddsOptions d
      → (v : QueryEnv E) (r : Resolver) (q : Bytes) (o : Outcome E) (request : Request)
      → do_query d resolve host v q r ≡ some o
      → o.posted ≡ some request
      → IsPrivate q request.body
  unfolding failed_with new_request
  posted-IsPrivate adds v r q o request run posted =
      elim (do_query-Course d resolve host v q r o run) [
        | short few e ↦ cc (rw e at posted)
        | resting len w e ↦ cc (rw e at posted)
        | unpadded x a e ↦ cc (rw e at posted)
        | unsent own h l rest x s bad e ↦ cc (rw e at posted)
        | sent own h l rest s fine rested e ↦
            let same : new_request (0 ∷ 0 ∷ rest) ≡ request = some_eq (rw e at posted) in
            subst (λ (z : Request). IsPrivate q z.body) same
              (record { rest = rest; zero_id = refl; in_blocks = Sent-in_blocks adds s })
      ]
