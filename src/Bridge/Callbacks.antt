-- ===== src/Bridge/Callbacks.antt =====
-- The listener of queries, from the adapter of app/session/doh.go to the call of the platform in
-- infra/android/bridge.go, and the probes.
pub mod Notices
use Prim.Native.String.{String}
use localdns_go.Prelude.{ℕ, Option, none, some, List, [], ◌∷◌, ◌++◌, Result, ok, err}
use localdns_go.Prelude.Words.{Bytes}
use localdns_go.Net.Ip.{Ip}
use localdns_go.Doh.Query.{
  Status, complete, send_failed, http_error, bad_query, bad_response, internal_error,
}
use localdns_go.Doh.Query.Report.{Summary, Call, on_query, on_response}
use localdns_go.Doh.Service.{Service}
use localdns_go.Tunnel.World.{Failure, call_failed}
use localdns_go.Tunnel.Session.{probe}
use localdns_go.Bridge.Hostname.{extract_hostname}

-- The constants from Complete on.
unfoldable pub status_code : Status → ℕ
status_code complete = 0
status_code send_failed = 1
status_code http_error = 2
status_code bad_query = 3
status_code bad_response = 4
status_code internal_error = 5

-- DoHQuerySumary, and its getters
pub record QuerySummary : Type 0 where
  pub summ : Summary

abbrev pub get_query : QuerySummary → Bytes
get_query q = q.summ.query

abbrev pub get_response : QuerySummary → Option Bytes
get_response q = q.summ.response

abbrev pub get_server : QuerySummary → Option Ip
get_server q = q.summ.server

abbrev pub get_status : QuerySummary → Status
get_status q = q.summ.status

abbrev pub get_http_status : QuerySummary → ℕ
get_http_status q = q.summ.http_status

abbrev pub get_latency : QuerySummary → ℕ
get_latency q = q.summ.latency

-- DoHListener, with tokens `T`, for what it calls of the platform. A token may be nil.
pub record DohListener (T N : Type 0) : Type 0 where
  pub query_token : String → T
  pub response_calls : Option T → Option QuerySummary → List N

-- `doh.Listener`
pub record Listener (T N : Type 0) : Type 0 where
  pub begin : String → T
  pub finish : Option T → Summary → List N

-- `makeInternalDoHListener`, with the two methods of `dohListenerAdapter`
unfoldable pub make_internal_doh_listener :
    {T N : Type 0} → Option (DohListener T N) → Option (Listener T N)
make_internal_doh_listener none = none
make_internal_doh_listener (some l) = some (record {
  begin = l.query_token;
  finish = λ t s. l.response_calls t (some (record { summ = s }));
})

-- What the calls that `Query` makes of its listener lead to: the token of `OnQuery` goes into `OnResponse`.
pub deliver : {T N : Type 0} → Listener T N → String → Option T → List Call → List N
deliver l url token [] = []
deliver l url token (on_query ∷ calls) = deliver l url (some (l.begin url)) calls
deliver l url token (on_response s ∷ calls) = l.finish token s ++ deliver l url token calls

-- What `localdns_jni_on_dns_query` is called with.
pub record Notice : Type 0 where
  pub hostname : Bytes
  pub latency_ms : ℕ
  pub status : ℕ

module _ (to_ms : ℕ → ℕ) where
  -- `OnResponse` of jniDoHListener; `to_ms` is the arithmetic on floats, from the nanoseconds of a latency
  -- to the milliseconds that are reported.
  unfoldable pub on_response_notice : Option QuerySummary → List Notice
  unfolding status_code extract_hostname
  on_response_notice none = []
  on_response_notice (some s) =
      record {
        hostname = extract_hostname (get_query s);
        latency_ms = to_ms (get_latency s);
        status = status_code (get_status s);
      }
      ∷ []

  -- jniDoHListener: its tokens are 0.
  unfoldable pub jni_doh_listener : DohListener ℕ Notice
  unfolding on_response_notice
  jni_doh_listener = record {
    query_token = λ url. 0;
    response_calls = λ token s. on_response_notice s;
  }

module _ {S V E : Type 0} where
  -- ProbeDoH and ProbeDoT, for how the making of the server ends.
  unfoldable pub probe_server : Result E (Service S V E) → V → S → Option (Option (Failure E) × S)
  probe_server (err e) v st = some (some (call_failed e), st)
  probe_server (ok s) v st = probe (some s) v st
