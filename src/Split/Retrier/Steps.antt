-- ===== src/Split/Retrier/Steps.antt =====
-- What the caller does with a retrier, as steps, beside the bytes that its writes were told are sent.
use localdns_go.Prelude.{ℕ, ◌≡◌, Bool, true, Option, none, List, [], ◌++◌, drop, All}
use localdns_go.Prelude.Words.{Bytes}
use localdns_go.Split.Conn.{WriteOutcome, sent_part, flatten, read_from}
use localdns_go.Split.Frames.Fragments.{IsByte}
use localdns_go.Split.Retrier.{
  Retrier, ReadEnv, read, write_begin, write_resume, close_read, close_write, set_read_deadline,
  set_write_deadline,
}

-- One call on `r` after which the caller has uploaded the second byte string. A `Read` that fails
-- ends the run: the caller then closes the connection.
pub data Step {E : Type 0} (net_timeout : E → Option Bool)
    : Retrier → Bytes → Retrier → Bytes → Type 0 where
  reads :
      {r : Retrier} {u : Bytes} (room : ℕ) (v : ReadEnv E)
      → (read net_timeout room v r).error ≡ none
      → Step net_timeout r u (read net_timeout room v r).state u
  writes :
      {r : Retrier} {u : Bytes} (o : WriteOutcome E) (now : ℕ) (b : Bytes)
      → All IsByte b
      → Step net_timeout r u (write_begin o now b r).1 (u ++ sent_part o b)
  resumes :
      {r : Retrier} {u : Bytes} (o : WriteOutcome E) (b : Bytes) (n : ℕ) (e : E)
      → All IsByte b
      → r.retry_complete ≡ true
      → Step net_timeout r u (write_resume o b n e r).1 (u ++ sent_part o (drop n b))
  passes :
      {r : Retrier} {u : Bytes} (chunks : List Bytes)
      → All IsByte (flatten chunks)
      → r.retry_complete ≡ true
      → Step net_timeout r u (record r { conn = read_from chunks r.conn }) (u ++ flatten chunks)
  closes_read : {r : Retrier} {u : Bytes} → Step net_timeout r u (close_read r) u
  closes_write : {r : Retrier} {u : Bytes} → Step net_timeout r u (close_write r) u
  sets_read_deadline :
      {r : Retrier} {u : Bytes} (t : Option ℕ) → Step net_timeout r u (set_read_deadline t r) u
  sets_write_deadline :
      {r : Retrier} {u : Bytes} (t : Option ℕ) → Step net_timeout r u (set_write_deadline t r) u

pub data Reach {E : Type 0} (net_timeout : E → Option Bool) (r0 : Retrier)
    : Retrier → Bytes → Type 0 where
  here : Reach net_timeout r0 r0 []
  next :
      {r r' : Retrier} {u u' : Bytes}
      → Reach net_timeout r0 r u
      → Step net_timeout r u r' u'
      → Reach net_timeout r0 r' u'
