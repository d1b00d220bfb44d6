-- ===== src/Doh/Query/Report.antt =====
-- `Query` of proxy/doh/doh.go: what the listener hears.
use localdns_go.Prelude.{ℕ, Bool, false, Option, none, some, List, [], ◌∷◌, if◌then◌else◌}
use localdns_go.Prelude.Words.{Bytes}
use localdns_go.Net.Ip.{Ip}
use localdns_go.Doh.Query.{
  Status, complete, Cause, callee, http_failed, status_ok, QueryError, Outcome,
}

-- A summary as the listener gets it; the latency is in nanoseconds, and `server` is the address whose
-- text the program passes on.
pub record Summary : Type 0 where
  pub latency : ℕ
  pub query : Bytes
  pub response : Option Bytes
  pub server : Option Ip
  pub status : Status
  pub http_status : ℕ

pub data Call : Type 0 where
  on_query : Call
  on_response : Summary → Call

-- `errors.Is(qerr, context.Canceled)`
pub is_cancel : {E : Type 0} → (E → Bool) → Cause E → Bool
is_cancel canceled (callee e) = canceled e
is_cancel canceled _ = false

-- `errors.As` to an httpError
failed_status : {E : Type 0} → Cause E → ℕ
failed_status (http_failed code) = code
failed_status _ = 0

summary_of : {E : Type 0} → ℕ → Bytes → Outcome E → Status → ℕ → Summary
summary_of latency q o status http_status = record {
  latency = latency;
  query = q;
  response = o.response;
  server = o.server;
  status = status;
  http_status = http_status;
}

report : {E : Type 0} → (E → Bool) → ℕ → Outcome E → Option (QueryError E) → List Call
report canceled latency o none =
    on_query ∷ on_response (summary_of latency o.query o complete status_ok) ∷ []
report canceled latency o (some e) =
    if is_cancel canceled e.cause
    then on_query ∷ []
    else on_query ∷ on_response (summary_of latency o.query o e.status (failed_status e.cause)) ∷ []

-- `Query`: the calls of the listener, if there is one, beside the outcome.
unfoldable pub query_calls : {E : Type 0} → (E → Bool) → Bool → ℕ → Outcome E → List Call
unfolding report is_cancel failed_status summary_of
query_calls canceled has_listener latency o =
    if has_listener then report canceled latency o o.qerr else []
