-- ===== src/Tests/Split.antt =====
-- Runs of transport/split.
use localdns_go.Prelude.{ℕ, ◌≡◌, refl, Bool, none, some, [], ◌∷◌, ◌++◌, List, ok, arith, Option}
use localdns_go.Prelude.Words.{Bytes}
use localdns_go.Split.Conn.{full, dialed, flatten}
use localdns_go.Split.Record.{get_tls_client_hello_record_len}
use localdns_go.Split.Hello.{split_hello, record_split, put_record_len}
use localdns_go.Split.Frames.{peer_reads}
use localdns_go.Split.Frames.Delivery.{peer_reads-split_hello}
use localdns_go.Split.Splitter.{new_splitter, splitter_write}
use localdns_go.Split.Splitter.Stream.{WriteCall, run_writes, slices, peer_reads-run_writes}
use localdns_go.Split.Retrier.{Retrier, ReadEnv, new_retrier, no_stats, read, write_begin}
use localdns_go.Split.Retrier.Steps.{Reach, reads, writes, here, next}
use localdns_go.Split.Retrier.Replay.{upload_survives_retry}

-- A TLS 1.0 handshake record with an eight-byte body.
abbrev hello : Bytes
hello = 22 ∷ 3 ∷ 1 ∷ 0 ∷ 8 ∷ 1 ∷ 2 ∷ 3 ∷ 4 ∷ 5 ∷ 6 ∷ 7 ∷ 8 ∷ []

record_split_run :
    (split_hello {E = ℕ} 0 full full hello dialed).conn.segments
    ≡ (22 ∷ 3 ∷ 1 ∷ 0 ∷ 1 ∷ 1 ∷ []) ∷ (22 ∷ 3 ∷ 1 ∷ 0 ∷ 7 ∷ 2 ∷ 3 ∷ 4 ∷ 5 ∷ 6 ∷ 7 ∷ 8 ∷ []) ∷ []
unfolding split_hello record_split get_tls_client_hello_record_len put_record_len
record_split_run = refl

peer_reads-split_hello_example :
    peer_reads (flatten (split_hello {E = ℕ} 0 full full hello dialed).conn.segments ++ 9 ∷ [])
    ≡ peer_reads (hello ++ 9 ∷ [])
unfolding split_hello record_split get_tls_client_hello_record_len
peer_reads-split_hello_example =
    peer_reads-split_hello {E = ℕ} 0 full full hello (9 ∷ []) (omega arith) refl

abbrev two_calls : List (WriteCall ℕ)
two_calls =
    record { slice = hello; draw = 0; o1 = full; o2 = full }
    ∷ record { slice = 1 ∷ 2 ∷ []; draw = 0; o1 = full; o2 = full }
    ∷ []

peer_reads-run_writes_example :
    peer_reads (flatten (run_writes two_calls new_splitter).conn.segments ++ [])
    ≡ peer_reads (flatten (slices two_calls) ++ [])
unfolding splitter_write split_hello record_split get_tls_client_hello_record_len
peer_reads-run_writes_example =
    peer_reads-run_writes two_calls [] (omega arith, refl, (omega arith, refl, tt))

-- The first read fails with error 5, the second dial and both writes go through.
abbrev retry_env : ReadEnv ℕ
retry_env = record {
  first = record { got = []; error = some 5 };
  redial = ok tt;
  draw = 0;
  o1 = full;
  o2 = full;
  second = record { got = 42 ∷ []; error = none };
}

abbrev no_timeouts : ℕ → Option Bool
no_timeouts e = none

abbrev fresh : Retrier
fresh = new_retrier 0 10 no_stats

abbrev uploaded : Retrier
uploaded = (write_begin {E = ℕ} full 20 hello fresh).1

abbrev retried : Retrier
retried = (read no_timeouts 100 retry_env uploaded).state

retried_run :
    (retried.conn.segments ≡ (split_hello {E = ℕ} 0 full full hello dialed).conn.segments)
    × (retried.stats.chunks ≡ 1)
    × (retried.stats.bytes ≡ 13)
    × (retried.stats.split ≡ 6)
unfolding read write_begin split_hello record_split get_tls_client_hello_record_len
retried_run = (refl, refl, refl, refl)

retried-Reach : Reach no_timeouts fresh retried hello
unfolding read write_begin split_hello record_split get_tls_client_hello_record_len
retried-Reach = next (next here (writes full 20 hello (omega arith))) (reads 100 retry_env refl)

upload_survives_retry_example :
    peer_reads (flatten retried.conn.segments ++ 1 ∷ []) ≡ peer_reads (hello ++ 1 ∷ [])
upload_survives_retry_example = upload_survives_retry 0 10 no_stats (1 ∷ []) retried-Reach
