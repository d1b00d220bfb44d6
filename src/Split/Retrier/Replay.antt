-- ===== src/Split/Retrier/Replay.antt =====
-- The stream that the peer reads is the stream that the caller uploaded, across the retry.
use localdns_go.Prelude.{
  ℕ, ◌≡◌, refl, Bool, Option, [], ◌++◌, drop, arith, All-drop, Bool-cases, inl, inr, if◌then◌else◌,
}
use localdns_go.Prelude.Words.{Bytes}
use localdns_go.Split.Conn.{flatten}
use localdns_go.Split.Frames.{peer_reads}
use localdns_go.Split.Frames.Fragments.{IsByte}
use localdns_go.Split.Retrier.{
  Retrier, RetryStats, new_retrier, close_read, close_write, set_read_deadline, set_write_deadline,
}
use localdns_go.Split.Retrier.Faithful.{
  IsFaithful, IsFaithful-same, read-IsFaithful, write_begin-IsFaithful, write_resume-IsFaithful,
  final-IsFaithful, All-sent_part,
}
use localdns_go.Split.Retrier.Steps.{
  Step, reads, writes, resumes, passes, closes_read, closes_write, sets_read_deadline,
  sets_write_deadline, Reach, here, next,
}

Step-IsFaithful :
    {E : Type 0} {net_timeout : E → Option Bool} {r r' : Retrier} {u u' : Bytes}
    → Step net_timeout r u r' u'
    → IsFaithful r u
    → IsFaithful r' u'
unfolding close_read close_write set_read_deadline set_write_deadline
Step-IsFaithful {net_timeout = nt} (reads room v h) f = read-IsFaithful nt room v h f
Step-IsFaithful (writes o now b bytes) f =
    write_begin-IsFaithful o now b (All-sent_part o b bytes) f
Step-IsFaithful (resumes o b n e bytes done) f =
    write_resume-IsFaithful o b n e (All-sent_part o (drop n b) (All-drop IsByte n b bytes)) done f
Step-IsFaithful (passes chunks bytes done) f = final-IsFaithful chunks bytes done f
Step-IsFaithful closes_read f = IsFaithful-same refl refl refl f
Step-IsFaithful closes_write f = IsFaithful-same refl refl refl f
Step-IsFaithful {r = r} (sets_read_deadline t) f =
    IsFaithful-same (ground arith) (ground arith) (ground arith) f
Step-IsFaithful (sets_write_deadline t) f = IsFaithful-same refl refl refl f

Reach-IsFaithful :
    {E : Type 0} {net_timeout : E → Option Bool} {r0 r : Retrier} {u : Bytes}
    → IsFaithful r0 []
    → Reach net_timeout r0 r u
    → IsFaithful r u
Reach-IsFaithful h here = h
Reach-IsFaithful h (next before step) = Step-IsFaithful step (Reach-IsFaithful h before)

new_retrier-IsFaithful :
    (before after : ℕ) (stats : RetryStats) → IsFaithful (new_retrier before after stats) []
new_retrier-IsFaithful before after stats = record {
  open_hello = λ h. refl;
  open_sent = λ h. refl;
  done_hello = λ h. cc;
  stream = λ rest. refl;
  bytes = tt;
}

-- After any sequence of calls on a new retrier in which what is written is bytes and every `Read`
-- returned without an error, retries included: on the connection that is then in use the peer
-- reads, with any `rest` behind it, what it would read from the bytes that the caller's writes
-- were told are sent.
pub upload_survives_retry :
    {E : Type 0} {net_timeout : E → Option Bool} (before after : ℕ) (stats : RetryStats)
    {r : Retrier} {u : Bytes} (rest : Bytes)
    → Reach net_timeout (new_retrier before after stats) r u
    → peer_reads (flatten r.conn.segments ++ rest) ≡ peer_reads (u ++ rest)
upload_survives_retry before after stats rest run =
    (Reach-IsFaithful (new_retrier-IsFaithful before after stats) run).stream rest

-- In any sequence of calls on a new retrier in which every `Read` returned without an error, the
-- hello is exactly what was uploaded until the first read is over, and is
-- empty from then on.
pub hello_lifetime :
    {E : Type 0} {net_timeout : E → Option Bool} (before after : ℕ) (stats : RetryStats)
    {r : Retrier} {u : Bytes}
    → Reach net_timeout (new_retrier before after stats) r u
    → r.hello ≡ (if r.retry_complete then [] else u)
hello_lifetime before after stats {r} run =
    let f = Reach-IsFaithful (new_retrier-IsFaithful before after stats) run in
    elim (Bool-cases r.retry_complete) [
      | inl done ↦ rw done (f.done_hello done)
      | inr fresh ↦ rw fresh (f.open_hello fresh)
    ]
