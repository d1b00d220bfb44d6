-- ===== src/Doh/QueryLog.antt =====
-- The log line of a query: proxy/doh/names.go and resolver_log.go, and the calls of it at the end of the
-- two `Query`. The text of an error in `namesUnpackErr` is its own; slog makes text of the values.
pub mod Written
use Prim.Native.String.{String}
use mathlib.Core.Option
use localdns_go.Prelude.{
  ℕ, ◌/◌, Bool, true, false, Option, none, some, List, [], ◌∷◌, ◌++◌, map, length, Result, ok, err,
}
use localdns_go.Prelude.Words.{Bytes}
use localdns_go.Log.{Logger, debug, info, warn}
use localdns_go.Doh.Message.{Dns, Message}
use localdns_go.Doh.Query.{QueryError, Outcome}
use localdns_go.Doh.Query.Report.{is_cancel}
use localdns_go.Dot.Framing.{DotError}
use localdns_go.Dot.Query.{DotOutcome}

-- What is passed to the logger as an argument: a text, a number, names, or an error.
pub data Value (X : Type 0) : Type 0 where
  text : String → Value X
  number : ℕ → Value X
  names : List Bytes → Value X
  failure : X → Value X

module _ {E Q H B : Type 0} (d : Dns E Q H B) where
  pub names_of : Result E (Message Q H B) → Result E (List Bytes)
  names_of (err e) = err e
  names_of (ok msg) = ok (map d.name msg.questions)

  -- `QueryQuestionNames`
  unfoldable pub query_question_names : Bytes → Result E (List Bytes)
  unfolding names_of
  query_question_names q = names_of (d.unpack q)

  module _ {X : Type 0} (error_text : E → String) where
    pub names_args : Bytes → Result E (List Bytes) → List (Value X)
    names_args q (err e) =
        text "namesUnpackErr" ∷ text (error_text e) ∷ text "qLen" ∷ number (length q) ∷ []
    names_args q (ok qnames) = text "names" ∷ names qnames ∷ []

    -- the arguments up to the switch; `latency` is in nanoseconds
    unfoldable pub query_args : String → String → Bytes → Option Bytes → ℕ → List (Value X)
    unfolding names_args
    query_args transport server q response latency =
        (text "transport"
          ∷ text transport
          ∷ text "server"
          ∷ text server
          ∷ text "latencyMs"
          ∷ number (latency / 1000000)
          ∷ text "respLen"
          ∷ number (length (Option.get_or response []))
          ∷ [])
        ++ names_args q (query_question_names q)

    module _ {O : Type 0} (logger : Logger (Value X) O) where
      pub log_end : List (Value X) → Option X → Bool → List O
      log_end args (some e) true =
          debug logger "DNS query" (args ++ text "err" ∷ text "cancelled" ∷ [])
      log_end args (some e) false = warn logger "DNS query" (args ++ text "err" ∷ failure e ∷ [])
      log_end args none cancelled = info logger "DNS query" args

      -- `LogDNSResolverQuery`
      unfoldable pub log_dns_resolver_query :
          String → String → Bytes → Option Bytes → ℕ → Option X → Bool → List O
      unfolding log_end query_args
      log_dns_resolver_query transport server q response latency error cancelled =
          log_end (query_args transport server q response latency) error cancelled

unfoldable pub was_cancelled : {E : Type 0} → (E → Bool) → Option (QueryError E) → Bool
was_cancelled canceled none = false
was_cancelled canceled (some e) = is_cancel canceled e.cause

-- The log at the end of `Query` of doh.go, which has the caller's slice as it is then, ...
unfoldable pub doh_query_log :
    {E Q H B O : Type 0}
    → Dns E Q H B
    → (E → String)
    → (E → Bool)
    → Logger (Value (QueryError E)) O
    → String
    → ℕ
    → Outcome E
    → List O
unfolding was_cancelled
doh_query_log d error_text canceled logger url latency o =
    log_dns_resolver_query d error_text logger "DoH" url o.query o.response latency o.qerr
      (was_cancelled canceled o.qerr)

-- ... and at the end of `Query` of dot.go.
unfoldable pub dot_query_log :
    {E Q H B O : Type 0}
    → Dns (DotError E) Q H B
    → (DotError E → String)
    → (DotError E → Bool)
    → Logger (Value (QueryError (DotError E))) O
    → String
    → ℕ
    → DotOutcome E
    → List O
unfolding was_cancelled
dot_query_log d error_text canceled logger url latency o =
    log_dns_resolver_query d error_text logger "DoT" url o.query o.response latency o.qerr
      (was_cancelled canceled o.qerr)
