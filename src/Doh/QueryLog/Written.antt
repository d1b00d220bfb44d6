-- ===== src/Doh/QueryLog/Written.antt =====
-- One query, one line of the Android log.
use Prim.Native.String.{String}
use localdns_go.Prelude.{ℕ, Bool, true, false, Option, none, some, List}
use localdns_go.Prelude.Words.{Bytes}
use localdns_go.Log.{debug, info, warn}
use localdns_go.Log.Android.{
  TextHandler, Priority, log_debug, log_info, log_warn, init_handler, android_logger, android_prio,
}
use localdns_go.Log.Android.Lines.{FormatsLines, IsOneLine, handle-IsOneLine}
use localdns_go.Doh.Message.{Dns}
use localdns_go.Doh.QueryLog.{Value, log_end, log_dns_resolver_query}

-- A failure is a warning, unless the caller has cancelled the query.
pub priority_of : {X : Type 0} → Option X → Bool → Priority
priority_of none cancelled = log_info
priority_of (some e) true = log_debug
priority_of (some e) false = log_warn

module _ {E Q H B X F A T : Type 0} (d : Dns E Q H B) (form : TextHandler F A (Value X) T)
    (law : FormatsLines form) (error_text : E → String) where
  log_end-IsOneLine :
      (args : List (Value X)) (error : Option X) (cancelled : Bool)
      → IsOneLine
          (log_end d error_text (android_logger form init_handler) args error cancelled)
          (priority_of error cancelled)
          "LocalDNS"
  unfolding log_end android_logger debug info warn priority_of android_prio
  log_end-IsOneLine args none cancelled = handle-IsOneLine form init_handler _ law
  log_end-IsOneLine args (some e) true = handle-IsOneLine form init_handler _ law
  log_end-IsOneLine args (some e) false = handle-IsOneLine form init_handler _ law

  -- Given that slog formats a record as one line with a newline at its end, as documented, and that
  -- `strings.TrimSpace` gives a slice without that newline: with the Android logger, the log at the end of a
  -- query is one line without a newline in it, whatever the query, its names and its outcome are. The line is
  -- of at most 3814 bytes, tagged LocalDNS, and its priority is Info for a success, Debug for a query that was cancelled
  -- and Warn for another failure.
  pub log_dns_resolver_query-IsOneLine :
      (transport server : String) (q : Bytes) (response : Option Bytes) (latency : ℕ)
      (error : Option X) (cancelled : Bool)
      → IsOneLine
          (log_dns_resolver_query d error_text
            (android_logger form init_handler)
            transport
            server
            q
            response
            latency
            error
            cancelled)
          (priority_of error cancelled)
          "LocalDNS"
  unfolding log_dns_resolver_query
  log_dns_resolver_query-IsOneLine transport server q response latency error cancelled =
      log_end-IsOneLine _ error cancelled
