-- ===== src/Tests/Stream.antt =====
-- Runs of the framing of proxy/dot/dot.go, and of `Accept` and `forwardQuery` of proxy/doh/doh.go.
use localdns_go.Prelude.{ℕ, ◌≡◌, refl, Option, none, List, [], ◌∷◌, ◌++◌, length, arith, ok}
use localdns_go.Prelude.Words.{Bytes}
use localdns_go.Dot.Framing.{Source, frame, dns_over_tcp_read}
use localdns_go.Dot.Framing.RoundTrip.{dns_over_tcp_read-frame}
use localdns_go.Doh.Accept.{WriteEnd, ReadEnd, accept}
use localdns_go.Doh.Accept.Framed.{frames-accept, frames, stream}
use localdns_go.Tests.Toy.{are_bytes_lem}

abbrev message : Bytes
message = 1 ∷ 2 ∷ 3 ∷ []

abbrev two_messages : Source ℕ
two_messages = record { pending = frame message ++ 9 ∷ []; ending = none }

dns_over_tcp_read-frame_example :
    dns_over_tcp_read two_messages ≡ (ok message, record { pending = 9 ∷ []; ending = none })
dns_over_tcp_read-frame_example =
    dns_over_tcp_read-frame message (9 ∷ []) none (omega arith) (omega arith)

abbrev write_all : Bytes → Option ℕ
write_all b = none

abbrev whole_write : Bytes → WriteEnd ℕ
whole_write b = record { n = length b; error = none }

abbrev no_error : Option ℕ
no_error = none

abbrev two_queries : List Bytes
two_queries = message ∷ (7 ∷ 8 ∷ []) ∷ []

abbrev torn_reads : List (ReadEnd ℕ)
torn_reads =
    record { chunk = 0 ∷ 2 ∷ []; error = none }
    ∷ record { chunk = 7 ∷ 8 ∷ []; error = none }
    ∷ record { chunk = 0 ∷ 4 ∷ []; error = none }
    ∷ record { chunk = 5 ∷ []; error = none }
    ∷ []

frames-accept_example :
    (rest : Bytes) × (stream torn_reads ≡ frames (accept torn_reads).queries ++ rest)
frames-accept_example =
    frames-accept torn_reads (omega arith, (omega arith, tt))
      (are_bytes_lem (stream torn_reads) refl)
