-- ===== src/Bridge/Callbacks/Notices.antt =====
-- What the platform hears of a query.
use Prim.Native.String.{String}
use localdns_go.Prelude.{
  ℕ, ◌<◌, ◌≡◌, refl, ap, ◌∙◌, Bool-cases, inl, inr, Bool, true, Option, none, some, List, [], ◌∷◌,
  ◌++◌, length, All, if◌then◌else◌,
}
use localdns_go.Prelude.Words.{Bytes}
use localdns_go.Split.Frames.Fragments.{IsByte}
use localdns_go.Net.Ip.{Ip}
use localdns_go.Doh.Message.{Dns}
use localdns_go.Doh.Query.{QueryError, QueryEnv, Resolver, Outcome, do_query}
use localdns_go.Doh.Query.Report.{Call, query_calls, is_cancel}
use localdns_go.Doh.Query.Effects.{query-do_query}
use localdns_go.Doh.QueryLog.{was_cancelled}
use localdns_go.Bridge.Hostname.{
  extract_hostname, encode_labels, join_labels, IsLabel, EndsName, extract_hostname-encode,
}
use localdns_go.Bridge.Callbacks.{
  status_code, make_internal_doh_listener, deliver, Notice, jni_doh_listener,
}

-- the code for a success, or for an error's status
pub outcome_code : {E : Type 0} → Option (QueryError E) → ℕ
outcome_code none = 0
outcome_code (some e) = status_code e.status

module _ (to_ms : ℕ → ℕ) where
  -- the notices of a query on a session, whose listener is that of the platform
  pub notices : String → List Call → List Notice
  unfolding make_internal_doh_listener
  notices url calls = elim (make_internal_doh_listener (some (jni_doh_listener to_ms))) [
    | none ↦ []
    | some l ↦ deliver l url none calls
  ]

  notices-query_calls :
      {E : Type 0} (canceled : E → Bool) (url : String) (latency : ℕ) (o : Outcome E)
      (qerr : Option (QueryError E))
      → o.qerr ≡ qerr
      → notices url (query_calls canceled true latency o) ≡ (
          if was_cancelled canceled qerr
          then []
          else record {
            hostname = extract_hostname o.query;
            latency_ms = to_ms latency;
            status = outcome_code qerr;
          }
            ∷ [])
  unfolding notices deliver query_calls was_cancelled outcome_code status_code jni_doh_listener
  notices-query_calls canceled url latency o none e = rw e refl
  notices-query_calls canceled url latency o (some x) e =
      elim (Bool-cases (is_cancel canceled x.cause)) [
        | inl cancelled ↦ rw e (rw cancelled refl)
        | inr failed ↦ rw e (rw failed refl)
      ]

  module _ {E Q H B : Type 0} (d : Dns E Q H B) (resolve : String → List Ip) (host : String)
      (v : QueryEnv E) (r : Resolver) (canceled : E → Bool) (url : String) (latency : ℕ) where
    -- On a session, the platform hears of a query over HTTPS once, or not at all if the query was
    -- cancelled. For a query of bytes with a header of twelve bytes and a name of nonempty labels, and where the
    -- HTTP request can be built, however it ends: the notice has the name with dots between its labels, and a
    -- code that is 0 for a success and that of the error's status otherwise.
    pub notices-do_query :
        (header : Bytes) (ls : List Bytes) (rest : Bytes) (o : Outcome E)
        → length header ≡ 12
        → All IsLabel ls
        → EndsName rest
        → 0 < length (encode_labels ls ++ rest)
        → let q = header ++ (encode_labels ls ++ rest) in
          All IsByte q
          → v.request_error ≡ none
          → do_query d resolve host v q r ≡ some o
          → notices url (query_calls canceled true latency o) ≡ (
              if was_cancelled canceled o.qerr
              then []
              else record {
                hostname = join_labels ls;
                latency_ms = to_ms latency;
                status = outcome_code o.qerr;
              }
                ∷ [])
    notices-do_query header ls rest o size labels end some_name bytes fine run =
        let q = header ++ (encode_labels ls ++ rest) in
        let named : extract_hostname o.query ≡ join_labels ls =
          ap extract_hostname (query-do_query d resolve host v r q o bytes fine run)
          ∙ extract_hostname-encode header ls rest size labels end some_name in
        notices-query_calls canceled url latency o o.qerr refl
        ∙ ap
            (λ (name : Bytes).
              if was_cancelled canceled o.qerr
              then []
              else record {
                hostname = name;
                latency_ms = to_ms latency;
                status = outcome_code o.qerr;
              }
                ∷ [])
            named
