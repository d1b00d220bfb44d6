-- ===== src/Split/Retrier/Copy.antt =====
-- `ReadFrom` of the retrier: a loop over `copyOnce` until the retry is over, and the rest on the final
-- connection. Other goroutines may call `Read` between its steps.
pub mod Turns
pub mod Uploaded
use localdns_go.Prelude.{
  ℕ, ◌+◌, Bool, true, false, Option, none, some, List, [], ◌∷◌, length, if◌then◌else◌,
}
use localdns_go.Prelude.Words.{Bytes}
use localdns_go.Split.Conn.{WriteOutcome, ReadOutcome, read_bytes, read_from, flatten}
use localdns_go.Split.Retrier.{
  Retrier, ReadEnv, WriteStep, returned, waiting, read, write_begin, write_resume,
}

-- A turn of the loop: the reads of others before the write, the read from the source, the attempt, the
-- reads of others behind it, and the write of what was left. A read has its room and its environment.
pub record Turn (E : Type 0) : Type 0 where
  pub before : List (ℕ × ReadEnv E)
  pub source : ReadOutcome E
  pub outcome : WriteOutcome E
  pub now : ℕ
  pub meanwhile : List (ℕ × ReadEnv E)
  pub rest_outcome : WriteOutcome E

abbrev pub chunk_of : {E : Type 0} → Turn E → Bytes
chunk_of t = read_bytes 2048 t.source

module _ {E : Type 0} (net_timeout : E → Option Bool) where
  unfoldable pub others_read : List (ℕ × ReadEnv E) → Retrier → Retrier
  others_read [] r = r
  others_read ((room, v) ∷ vs) r = others_read vs (read net_timeout room v r).state

module _ {E : Type 0} where
  pub resumed : WriteStep E × Retrier → Option (ℕ × Option E × Retrier)
  resumed (returned n e, r) = some (n, e, r)
  resumed (waiting n e, r) = none

  pub pass_rest : ℕ → List Bytes → Option E → Retrier → ℕ × Option E × Retrier
  pass_rest bytes chunks e r =
      (bytes + length (flatten chunks), e, record r { conn = read_from chunks r.conn })

  pub after_turn :
      ℕ
      → (ℕ → Retrier → Option (ℕ × Option E × Retrier))
      → Option (ℕ × Option E × Retrier)
      → Option (ℕ × Option E × Retrier)
  after_turn bytes next none = none
  after_turn bytes next (some (n, some e, r)) = some (bytes + n, some e, r)
  after_turn bytes next (some (n, none, r)) = next (bytes + n) r

module _ {E : Type 0} (net_timeout : E → Option Bool) where
  pub begun : Turn E → WriteStep E × Retrier → Option (ℕ × Option E × Retrier)
  begun t (returned n e, r) = some (n, e, others_read net_timeout t.meanwhile r)
  begun t (waiting n e, r) =
      resumed (write_resume t.rest_outcome (chunk_of t) n e (others_read net_timeout t.meanwhile r))

  -- `copyOnce(r, reader)`; `none` while its write waits.
  unfoldable pub copy_turn : Turn E → Retrier → Option (ℕ × Option E × Retrier)
  unfolding begun resumed others_read
  copy_turn t r =
      let r1 = others_read net_timeout t.before r in
      elim t.source.error [
        | some e ↦ some (0, some e, r1)
        | none ↦ begun t (write_begin t.outcome t.now (chunk_of t) r1)
      ]

  -- `ReadFrom`, with `bytes` copied so far: `none` while it runs. `chunks` and `e` are what the final
  -- connection takes and how that ends.
  unfoldable pub retrier_read_from :
      List (Turn E) → List Bytes → Option E → ℕ → Retrier → Option (ℕ × Option E × Retrier)
  unfolding pass_rest after_turn
  retrier_read_from [] chunks e bytes r =
      if r.retry_complete then some (pass_rest bytes chunks e r) else none
  retrier_read_from (t ∷ ts) chunks e bytes r =
      let more = after_turn bytes (retrier_read_from ts chunks e) (copy_turn t r) in
      if r.retry_complete then some (pass_rest bytes chunks e r) else more
