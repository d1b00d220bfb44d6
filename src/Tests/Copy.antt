-- ===== src/Tests/Copy.antt =====
-- Runs of `ReadFrom` of the retrier.
use localdns_go.Prelude.{ℕ, ◌≡◌, refl, Bool, none, some, [], ◌∷◌, ◌++◌, length, ok, Option, take}
use localdns_go.Prelude.Words.{Bytes}
use localdns_go.Split.Conn.{full, flatten}
use localdns_go.Split.Hello.{split_hello, tcp_split}
use localdns_go.Split.Record.{get_tls_client_hello_record_len}
use localdns_go.Split.Frames.{peer_reads}
use localdns_go.Split.Retrier.{
  Retrier, ReadEnv, new_retrier, no_stats, read, retry, complete, write_begin,
}
use localdns_go.Split.Retrier.Copy.{Turn, copy_turn, others_read, retrier_read_from}
use localdns_go.Tests.Toy.{are_bytes_lem}
use localdns_go.Split.Retrier.Copy.Uploaded.{FitAll, retrier_read_from_uploads}

abbrev no_timeouts : ℕ → Option Bool
no_timeouts e = none

abbrev fresh : Retrier
fresh = new_retrier 0 10 no_stats

-- A read that fails, and answers behind the retry.
abbrev answered : ReadEnv ℕ
answered = record {
  first = record { got = []; error = some 5 };
  redial = ok tt;
  draw = 0;
  o1 = full;
  o2 = full;
  second = record { got = 1 ∷ []; error = none };
}

-- A first turn on the provisional connection, behind which the reader retries; the rest is passed on.
abbrev first_turn : Turn ℕ
first_turn = record {
  before = [];
  source = record { got = 9 ∷ 8 ∷ []; error = none };
  outcome = full;
  now = 3;
  meanwhile = (100, answered) ∷ [];
  rest_outcome = full;
}

abbrev copied : Option (ℕ × Option ℕ × Retrier)
copied =
    retrier_read_from no_timeouts (first_turn ∷ []) ((7 ∷ []) ∷ []) none 0
      (new_retrier 0 10 no_stats)

abbrev copied_state : Option (ℕ × Option ℕ × Retrier) → Retrier
copied_state (some (n, e, r)) = r
copied_state none = fresh

retrier_read_from_uploads_example :
    (sent : Bytes) × (3 ≡ length sent)
    × ((rest : Bytes)
        → peer_reads (flatten (copied_state copied).conn.segments ++ rest)
          ≡ peer_reads (sent ++ rest))
    × (◌≡◌ {A = Option ℕ} none none
        → (used : ℕ) × (sent ≡ flatten (take used ((9 ∷ 8 ∷ []) ∷ [])) ++ flatten ((7 ∷ []) ∷ [])))
unfolding retrier_read_from copy_turn write_begin others_read read retry complete FitAll split_hello
    get_tls_client_hello_record_len tcp_split
retrier_read_from_uploads_example =
    retrier_read_from_uploads no_timeouts 0 10 no_stats (first_turn ∷ []) ((7 ∷ []) ∷ []) none none
      3 (copied_state copied) ((tt, (refl, tt), are_bytes_lem (9 ∷ 8 ∷ []) refl), tt)
      (are_bytes_lem (7 ∷ []) refl) refl
