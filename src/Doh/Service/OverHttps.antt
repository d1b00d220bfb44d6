-- ===== src/Doh/Service/OverHttps.antt =====
-- `resolver.Query` of proxy/doh/doh.go as an implementation of the interface.
use Prim.Native.String.{String}
use localdns_go.Prelude.{
  ◌<◌, ◌≡◌, ◌≢◌, sym, ap, ◌∙◌, true, Option, none, some, List, ◌∷◌, length, Option-cases, inl, inr,
  ltb, arith, some_eq,
}
use localdns_go.Prelude.Words.{Bytes}
use localdns_go.Net.Ip.{Ip}
use localdns_go.Doh.Message.{Dns, HasHeader}
use localdns_go.Doh.Query.{QueryEnv, QueryError, Resolver, Outcome, do_query, failed_with}
use localdns_go.Doh.Query.Ids.{response_has_query_id}
use localdns_go.Doh.Service.{Answer, Service, KeepsId}

pub answer_of : {E : Type 0} → Outcome E → Answer (QueryError E) × Resolver
answer_of o = (record { response = o.response; error = o.qerr; query = o.query }, o.state)

pub answer_of_some : {E : Type 0} → Option (Outcome E) → Option (Answer (QueryError E) × Resolver)
answer_of_some none = none
answer_of_some (some o) = some (answer_of o)

module _ {E Q H B : Type 0} (d : Dns E Q H B) (resolve : String → List Ip) (host : String) where
  -- the values that `Query` returns
  unfoldable pub doh_query :
      QueryEnv E → Bytes → Resolver → Option (Answer (QueryError E) × Resolver)
  unfolding answer_of_some answer_of
  doh_query v q r = answer_of_some (do_query d resolve host v q r)

  abbrev pub doh_service : Service Resolver (QueryEnv E) (QueryError E)
  doh_service = record { query = doh_query }

  doh_query-eq-some :
      (v : QueryEnv E) (q : Bytes) (r r' : Resolver) (a : Answer (QueryError E))
      → doh_query v q r ≡ some (a, r')
      → (o : Outcome E) × (do_query d resolve host v q r ≡ some o) × (answer_of o ≡ (a, r'))
  unfolding doh_query
  doh_query-eq-some v q r r' a e = elim (Option-cases (do_query d resolve host v q r)) [
    | inl nothing ↦ cc (rw (nothing, answer_of_some) at e)
    | inr (o, run) ↦ (o, run, some_eq (rw (run, answer_of_some) at e))
  ]

  short_fails :
      (v : QueryEnv E) (q : Bytes) (r r' : Resolver) (a : Answer (QueryError E))
      → length q < 2
      → doh_query v q r ≡ some (a, r')
      → (a.error ≢ none) × (a.response ≡ none)
  unfolding doh_query do_query failed_with
  short_fails v q r r' a few e =
      let test : ltb (length q) 2 ≡ true = ground arith in
      let same = some_eq (rw test at e) in
      let err = ap (λ (z : Answer (QueryError E) × Resolver). z.0.error) same in
      ((λ h. cc), sym (ap (λ (z : Answer (QueryError E) × Resolver). z.0.response) same))

  -- Given that messages have headers, the DNS-over-HTTPS resolver keeps the promises of the interface:
  -- an answer without an error carries the ID of the query, and a query of fewer than two bytes has an
  -- error and no response.
  pub doh_service-KeepsId : HasHeader d → KeepsId doh_service
  unfolding answer_of
  doh_service-KeepsId law = record {
    id_kept = λ v h l tail st st' a bh bl e good.
        let (o, run, same) = doh_query-eq-some v (h ∷ l ∷ tail) st st' a e in
        let fine : o.qerr ≡ none =
          ap (λ (z : Answer (QueryError E) × Resolver). z.0.error) same ∙ good in
        let (request, rest, final, posted, reply, answer) =
          response_has_query_id d law resolve host v st h l tail o bh bl run fine in
        (rest, ap (λ (z : Answer (QueryError E) × Resolver). z.0.response) (sym same) ∙ answer);
    short_fails = short_fails;
  }
