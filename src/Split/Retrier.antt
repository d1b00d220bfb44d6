-- ===== src/Split/Retrier.antt =====
-- `retrier` of transport/split/retrier.go. The reader and the writer hold the mutex around each of
-- these bodies, so each is one step; a `Write` that has to wait for the flag is two steps. Times are
-- numbers of nanoseconds and `none` is the zero `time.Time`. `retry_complete` says that
-- retryCompleteFlag is closed.
pub mod Steps
pub mod Faithful
pub mod Replay
pub mod Copy
pub mod FirstRead
use localdns_go.Prelude.{
  ℕ, ◌+◌, ◌*◌, ◌-◌, ◌%◌, ◌^◌, ◌||◌, Bool, false, true, Option, none, some, List, [], ◌∷◌, ◌++◌,
  ◌==◌, length, take, drop, if◌then◌else◌, Result, ok, err,
}
use localdns_go.Prelude.Words.{Bytes}
use localdns_go.Split.Conn.{
  Conn, WriteOutcome, ReadOutcome, dialed, write, written, write_error, read_bytes,
}
use localdns_go.Split.Hello.{split_hello}

-- The counters are bit patterns: `bytes` of an int32, `chunks` and `split` of an int16.
pub record RetryStats : Type 0 where
  pub bytes : ℕ
  pub chunks : ℕ
  pub split : ℕ
  pub is_timeout : Bool

pub record Retrier : Type 0 where
  pub conn : Conn
  pub read_deadline : Option ℕ
  pub write_deadline : Option ℕ
  pub timeout : ℕ
  pub hello : Bytes
  pub retry_complete : Bool
  pub read_closed : Bool
  pub write_closed : Bool
  pub stats : RetryStats

-- `timeout(before, after)`: 1200 ms and two round trips. The clock is monotonic.
unfoldable pub timeout_of : ℕ → ℕ → ℕ
timeout_of before after = 1_200_000_000 + 2 * (after - before)

abbrev pub no_stats : RetryStats
no_stats = record { bytes = 0; chunks = 0; split = 0; is_timeout = false }

abbrev pub new_retrier : ℕ → ℕ → RetryStats → Retrier
new_retrier before after stats = record {
  conn = dialed;
  read_deadline = none;
  write_deadline = none;
  timeout = timeout_of before after;
  hello = [];
  retry_complete = false;
  read_closed = false;
  write_closed = false;
  stats = stats;
}

-- `DialWithSplitRetry`; `attempt` is how the dial ends, `stats` what the caller passed, if anything.
unfoldable pub dial_with_split_retry :
    {E : Type 0} → Result E (Unit {0}) → ℕ → ℕ → Option RetryStats → Result E Retrier
dial_with_split_retry (err e) before after stats = err e
dial_with_split_retry (ok _) before after none = ok (new_retrier before after no_stats)
dial_with_split_retry (ok _) before after (some stats) = ok (new_retrier before after stats)

-- How the calls that one `Read` may make end: the first read, the dial, the draw and the two writes
-- of `splitHello`, and the read from the new socket.
pub record ReadEnv (E : Type 0) : Type 0 where
  pub first : ReadOutcome E
  pub redial : Result E (Unit {0})
  pub draw : ℕ
  pub o1 : WriteOutcome E
  pub o2 : WriteOutcome E
  pub second : ReadOutcome E

-- What `Read` returns, with the state behind it.
pub record ReadResult (E : Type 0) : Type 0 where
  pub got : Bytes
  pub error : Option E
  pub state : Retrier

-- A write that returned, or that waits for the flag with the count and the error of its attempt.
pub data WriteStep (E : Type 0) : Type 0 where
  returned : ℕ → Option E → WriteStep E
  waiting : ℕ → E → WriteStep E

-- CloseRead and CloseWrite as they were called on the old socket, and the caller's deadlines
abbrev pub carry_over : Retrier → Conn → Conn
carry_over r c = record c {
  read_shut = if r.read_closed then true else c.read_shut;
  write_shut = if r.write_closed then true else c.write_shut;
  read_deadline = r.read_deadline;
  write_deadline = r.write_deadline;
}

note_timeout : Option Bool → RetryStats → RetryStats
note_timeout none s = s
note_timeout (some b) s = record s { is_timeout = b }

module _ {E : Type 0} where
  after_replay : ℕ → ReadEnv E → Retrier → Option E → ReadResult E
  after_replay room v r (some e) = record { got = []; error = some e; state = r }
  after_replay room v r none = record {
    got = read_bytes room v.second;
    error = v.second.error;
    state = record r { conn = carry_over r r.conn };
  }

  after_redial : ℕ → ReadEnv E → Retrier → Result E (Unit {0}) → ReadResult E
  after_redial room v r (err e) = record { got = []; error = some e; state = r }
  after_redial room v r (ok _) =
      let s = split_hello v.draw v.o1 v.o2 r.hello dialed in
      let stats = record r.stats { split = s.split_len % 2 ^ 16 } in
      after_replay room v (record r { conn = s.conn; stats = stats }) s.error

  -- `retry(buf)`
  unfoldable pub retry : ℕ → ReadEnv E → Retrier → ReadResult E
  unfolding after_replay after_redial
  retry room v r =
      after_redial room v (record r { conn = record r.conn { is_closed = true } }) v.redial

  -- the end of the first `Read`: the flag is closed and the hello dropped
  unfoldable pub complete : ReadResult E → ReadResult E
  complete x = record x {
    state = record (x.state) {
      retry_complete = true;
      conn = record (x.state.conn) { read_deadline = none };
      hello = [];
    };
  }

  first_read : (E → Option Bool) → ℕ → ReadEnv E → Retrier → Option E → ReadResult E
  first_read net_timeout room v r none =
      complete (record { got = read_bytes room v.first; error = none; state = r })
  first_read net_timeout room v r (some e) =
      complete (retry room v (record r { stats = note_timeout (net_timeout e) r.stats }))

  abbrev pub is_idle : ℕ → ReadOutcome E → Bool
  is_idle room o = elim o.error [ none ↦ length (read_bytes room o) == 0 | some _ ↦ false ]

  -- `Read(buf)` with room for `room` bytes. `net_timeout` is `errors.As` to a net.Error and `Timeout()`.
  unfoldable pub read : (E → Option Bool) → ℕ → ReadEnv E → Retrier → ReadResult E
  unfolding first_read retry complete note_timeout
  read net_timeout room v r =
      let direct : ReadResult E = record {
        got = read_bytes room v.first;
        error = v.first.error;
        state = r;
      } in
      if is_idle room v.first || r.retry_complete
      then direct
      else first_read net_timeout room v r v.first.error

  attempt : WriteOutcome E → Bytes → WriteStep E
  attempt o b = elim (write_error o) [
    | none ↦ returned (written o b) none
    | some e ↦ waiting (written o b) e
  ]

  -- `Write(b)` at time `now`, up to its return or to the wait for the flag
  unfoldable pub write_begin : WriteOutcome E → ℕ → Bytes → Retrier → WriteStep E × Retrier
  unfolding attempt
  write_begin o now b r =
      if r.retry_complete
      then (returned (written o b) (write_error o), record r { conn = write o b r.conn })
      else (
        attempt o b,
        record r {
          conn = record (write o b r.conn) { read_deadline = some (now + r.timeout) };
          hello = r.hello ++ take (written o b) b;
          stats = record r.stats {
            chunks = (r.stats.chunks + 1) % 2 ^ 16;
            bytes = length (r.hello ++ take (written o b) b) % 2 ^ 32;
          };
        },
      )

  -- The rest of a waiting `Write(b)` of which `n` bytes were taken. While the flag is open it waits.
  unfoldable pub write_resume : WriteOutcome E → Bytes → ℕ → E → Retrier → WriteStep E × Retrier
  write_resume o b n e r =
      if r.retry_complete
      then (if length (drop n b) == 0 then (returned n (some e), r) else (
        returned (n + written o (drop n b)) (write_error o),
        record r { conn = write o (drop n b) r.conn },
      ))
      else (waiting n e, r)

-- The closing methods and the deadlines; what the socket's own call returns is passed on.
unfoldable pub close_read : Retrier → Retrier
close_read r = record r { read_closed = true; conn = record r.conn { read_shut = true } }

unfoldable pub close_write : Retrier → Retrier
close_write r = record r { write_closed = true; conn = record r.conn { write_shut = true } }

-- `Close`: the read side is left alone if the write side fails to close.
unfoldable pub close : {E : Type 0} → Option E → Option E → Retrier → Option E × Retrier
close (some e) e' r = (some e, close_write r)
close none e' r = (e', close_read (close_write r))

unfoldable pub set_read_deadline : Option ℕ → Retrier → Retrier
set_read_deadline t r =
    if r.retry_complete
    then record r { read_deadline = t; conn = record r.conn { read_deadline = t } }
    else record r { read_deadline = t }

unfoldable pub set_write_deadline : Option ℕ → Retrier → Retrier
set_write_deadline t r = record r {
  write_deadline = t;
  conn = record r.conn { write_deadline = t };
}

unfoldable pub set_deadline : Option ℕ → Retrier → Retrier
unfolding set_read_deadline set_write_deadline
set_deadline t r = set_write_deadline t (set_read_deadline t r)
