-- ===== src/Dot/Service.antt =====
-- `resolver.Query` of proxy/dot/dot.go, as an implementation of the interface `doh.Resolver`.
use Prim.Native.String.{String}
use localdns_go.Prelude.{
  ℕ, ◌<◌, ◌≡◌, ◌≢◌, sym, ap, ◌∙◌, Bool, true, Option, none, some, List, [], ◌∷◌, length,
  Option-cases, inl, inr, ltb, arith, if◌then◌else◌, some_eq, Result,
}
use localdns_go.Prelude.Words.{Bytes}
use localdns_go.Net.Ip.{Ip}
use localdns_go.Doh.Message.{Dns, HasHeader}
use localdns_go.Doh.Query.{QueryError, Resolver, Status, complete}
use localdns_go.Doh.Query.Report.{Summary, Call, on_query, on_response, is_cancel}
use localdns_go.Doh.Service.{Answer, Service, KeepsId}
use localdns_go.Dot.Framing.{DotError}
use localdns_go.Dot.Query.{DotEnv, DotOutcome, dot_do_query, dot_failed}
use localdns_go.Dot.Query.Closed.{dot_response_has_query_id}

-- the summary that the listener gets: there is no HTTP status
dot_summary : {E : Type 0} → ℕ → DotOutcome E → Status → Summary
dot_summary latency o status = record {
  latency = latency;
  query = o.query;
  response = o.response;
  server = o.server;
  status = status;
  http_status = 0;
}

dot_report :
    {E : Type 0}
    → (DotError E → Bool)
    → ℕ
    → DotOutcome E
    → Option (QueryError (DotError E))
    → List Call
dot_report canceled latency o none = on_query ∷ on_response (dot_summary latency o complete) ∷ []
dot_report canceled latency o (some e) =
    if is_cancel canceled e.cause
    then on_query ∷ []
    else on_query ∷ on_response (dot_summary latency o e.status) ∷ []

-- the calls of the listener, if there is one
unfoldable pub dot_query_calls :
    {E : Type 0} → (DotError E → Bool) → Bool → ℕ → DotOutcome E → List Call
unfolding dot_report dot_summary
dot_query_calls canceled has_listener latency o =
    if has_listener then dot_report canceled latency o o.qerr else []

pub dot_answer_of : {E : Type 0} → DotOutcome E → Answer (QueryError (DotError E)) × Resolver
dot_answer_of o = (record { response = o.response; error = o.qerr; query = o.query }, o.state)

pub dot_answer_of_some :
    {E : Type 0} → Option (DotOutcome E) → Option (Answer (QueryError (DotError E)) × Resolver)
dot_answer_of_some none = none
dot_answer_of_some (some o) = some (dot_answer_of o)

module _ {E Q H B C : Type 0} (d : Dns (DotError E) Q H B) (resolve : String → List Ip)
    (connect : ℕ → Ip → Result (DotError E) C) (remote : C → Option Ip) (host : String)
    (port : ℕ) where
  -- the values that `Query` returns
  unfoldable pub dot_query :
      DotEnv E → Bytes → Resolver → Option (Answer (QueryError (DotError E)) × Resolver)
  unfolding dot_answer_of_some dot_answer_of
  dot_query v q r = dot_answer_of_some (dot_do_query d resolve connect remote host port v q r)

  abbrev pub dot_service : Service Resolver (DotEnv E) (QueryError (DotError E))
  dot_service = record { query = dot_query }

  dot_query-eq-some :
      (v : DotEnv E) (q : Bytes) (r r' : Resolver) (a : Answer (QueryError (DotError E)))
      → dot_query v q r ≡ some (a, r')
      → (o : DotOutcome E) × (dot_do_query d resolve connect remote host port v q r ≡ some o)
        × (dot_answer_of o ≡ (a, r'))
  unfolding dot_query
  dot_query-eq-some v q r r' a e =
      elim (Option-cases (dot_do_query d resolve connect remote host port v q r)) [
        | inl nothing ↦ cc (rw (nothing, dot_answer_of_some) at e)
        | inr (o, run) ↦ (o, run, some_eq (rw (run, dot_answer_of_some) at e))
      ]

  short_fails :
      (v : DotEnv E) (q : Bytes) (r r' : Resolver) (a : Answer (QueryError (DotError E)))
      → length q < 2
      → dot_query v q r ≡ some (a, r')
      → (a.error ≢ none) × (a.response ≡ none)
  unfolding dot_query dot_do_query dot_failed
  short_fails v q r r' a few e =
      let test : ltb (length q) 2 ≡ true = ground arith in
      let same = some_eq (rw test at e) in
      let failed = ap (λ (z : Answer (QueryError (DotError E)) × Resolver). z.0.error) same in
      ((λ h. cc), sym (ap (λ (z : Answer (QueryError (DotError E)) × Resolver). z.0.response) same))

  -- Given that messages have headers, the DNS-over-TLS resolver keeps the promises of the interface: an
  -- answer without an error carries the ID of the query, and a query of fewer than two bytes has an
  -- error and no response.
  pub dot_service-KeepsId : HasHeader d → KeepsId dot_service
  unfolding dot_answer_of
  dot_service-KeepsId law = record {
    id_kept = λ v h l tail st st' a bh bl e good.
        let (o, run, same) = dot_query-eq-some v (h ∷ l ∷ tail) st st' a e in
        let fine : o.qerr ≡ none =
          ap (λ (z : Answer (QueryError (DotError E)) × Resolver). z.0.error) same ∙ good in
        let (rest, read, answer) =
          dot_response_has_query_id d resolve connect remote host port v st law h l tail o bh bl run
            fine in
        (
          rest,
          ap (λ (z : Answer (QueryError (DotError E)) × Resolver). z.0.response) (sym same)
              ∙ answer,
        );
    short_fails = short_fails;
  }
