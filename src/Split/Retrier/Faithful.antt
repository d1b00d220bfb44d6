-- ===== src/Split/Retrier/Faithful.antt =====
-- What holds of a retrier after an upload, and which calls keep it.
use localdns_go.Prelude.{
  ℕ, zero, suc, nil_of_length, ◌≡◌, refl, sym, ap, ◌∙◌, Bool, false, true, ◌||◌, Option, none, some,
  List, [], ◌++◌, length, take, drop, All, arith, append-nil, append_assoc, take-length,
  take-min-length, All-append, All-take, Result, ok, err, Bool-cases, inl, inr, ◌==◌,
}
use localdns_go.Prelude.Words.{Bytes}
use localdns_go.Split.Conn.{
  read_bytes, Conn, WriteOutcome, full, short, sent_part, written, write, flatten, flatten-concat,
  flatten-append, read_from, dialed,
}
use localdns_go.Split.Hello.{split_hello}
use localdns_go.Split.Frames.{peer_reads, SameStream}
use localdns_go.Split.Frames.Fragments.{IsByte}
use localdns_go.Split.Frames.Delivery.{peer_reads-split_hello}
use localdns_go.Split.Retrier.{
  Retrier, ReadEnv, ReadResult, read, write_begin, write_resume, after_replay, after_redial, retry,
  complete, note_timeout, first_read, is_idle,
}

-- What holds of a retrier after the caller has uploaded `u`.
pub record IsFaithful (r : Retrier) (u : Bytes) : Type 0 where
  pub open_hello : r.retry_complete ≡ false → r.hello ≡ u
  pub open_sent : r.retry_complete ≡ false → flatten r.conn.segments ≡ u
  pub done_hello : r.retry_complete ≡ true → r.hello ≡ []
  pub stream : SameStream (flatten r.conn.segments) u
  pub bytes : All IsByte u

-- A step that leaves alone what the invariant speaks of.
pub IsFaithful-same :
    {r r' : Retrier} {u : Bytes}
    → r'.retry_complete ≡ r.retry_complete
    → r'.hello ≡ r.hello
    → r'.conn.segments ≡ r.conn.segments
    → IsFaithful r u
    → IsFaithful r' u
IsFaithful-same {r} {r'} {u} a b c f = record {
  open_hello = λ h. b ∙ f.open_hello (sym a ∙ h);
  open_sent = λ h. ap flatten c ∙ f.open_sent (sym a ∙ h);
  done_hello = λ h. b ∙ f.done_hello (sym a ∙ h);
  stream = λ rest. ap (λ s. peer_reads (flatten s ++ rest)) c ∙ f.stream rest;
  bytes = f.bytes;
}

module _ {E : Type 0} (room : ℕ) (v : ReadEnv E) where
  after_replay-segments :
      (r : Retrier) (x : Option E) → (after_replay room v r x).state.conn.segments ≡ r.conn.segments
  unfolding after_replay
  after_replay-segments r none = refl
  after_replay-segments r (some e) = refl

  after_replay-error :
      (r : Retrier) (x : Option E) → (after_replay room v r x).error ≡ none → x ≡ none
  unfolding after_replay
  after_replay-error r none h = refl
  after_replay-error r (some e) h = cc

  -- A retry that reports no error has sent the hello again, on a new connection.
  after_redial-SameStream :
      (r : Retrier) (d : Result E Unit)
      → All IsByte r.hello
      → (after_redial room v r d).error ≡ none
      → SameStream (flatten (after_redial room v r d).state.conn.segments) r.hello
  unfolding after_redial
  after_redial-SameStream r (err e) bytes h = cc
  after_redial-SameStream r (ok x) bytes h =
      let s = split_hello v.draw v.o1 v.o2 r.hello dialed in
      λ rest. rw (after_replay-segments _ s.error) (
        peer_reads-split_hello v.draw v.o1 v.o2 r.hello rest bytes (after_replay-error _ s.error h))

complete-IsFaithful :
    {E : Type 0} (x : ReadResult E) (u : Bytes)
    → SameStream (flatten x.state.conn.segments) u
    → All IsByte u
    → IsFaithful (complete x).state u
unfolding complete
complete-IsFaithful x u same bytes = record {
  open_hello = λ h. cc;
  open_sent = λ h. cc;
  done_hello = λ h. refl;
  stream = same;
  bytes = bytes;
}

module _ {E : Type 0} (net_timeout : E → Option Bool) (room : ℕ) (v : ReadEnv E) where
  first_read-IsFaithful :
      {r : Retrier} {u : Bytes} (x : Option E)
      → r.retry_complete ≡ false
      → (first_read net_timeout room v r x).error ≡ none
      → IsFaithful r u
      → IsFaithful (first_read net_timeout room v r x).state u
  unfolding first_read retry complete
  first_read-IsFaithful {r} {u} none fresh h f =
      let x : ReadResult E = record { got = read_bytes room v.first; error = none; state = r } in
      complete-IsFaithful x u f.stream f.bytes
  first_read-IsFaithful {r} {u} (some e) fresh h f =
      let same =
        after_redial-SameStream room v
          (record r {
            stats = note_timeout (net_timeout e) r.stats;
            conn = record r.conn { is_closed = true };
          })
          v.redial (rw (f.open_hello fresh) f.bytes) h in
      complete-IsFaithful (retry room v (record r { stats = note_timeout (net_timeout e) r.stats }))
        u (λ rest. same rest ∙ ap (λ z. peer_reads (z ++ rest)) (f.open_hello fresh)) f.bytes

  pub read-IsFaithful :
      {r : Retrier} {u : Bytes}
      → (read net_timeout room v r).error ≡ none
      → IsFaithful r u
      → IsFaithful (read net_timeout room v r).state u
  unfolding read
  read-IsFaithful {r} {u} h f = elim (Bool-cases (is_idle room v.first || r.retry_complete)) [
    | inl b ↦ rw b f
    | inr b ↦ rw b (first_read-IsFaithful v.first.error (ground arith) (rw b at h) f)
  ]

pub take-written :
    {E : Type 0} (o : WriteOutcome E) (b : Bytes) → take (written o b) b ≡ sent_part o b
take-written full b = take-length b
take-written (short n e) b = take-min-length n b

-- A direct write behind a faithful stream.
write-SameStream :
    {E : Type 0} (o : WriteOutcome E) (b : Bytes) (c : Conn) (u : Bytes)
    → SameStream (flatten c.segments) u
    → SameStream (flatten (write o b c).segments) (u ++ sent_part o b)
write-SameStream o b c u same rest =
    ap (λ z. peer_reads (z ++ rest)) (flatten-concat c.segments (sent_part o b))
    ∙ ap peer_reads (append_assoc (flatten c.segments) (sent_part o b) rest)
    ∙ same (sent_part o b ++ rest)
    ∙ ap peer_reads (sym (append_assoc u (sent_part o b) rest))

-- A write on the final connection.
direct-IsFaithful :
    {E : Type 0} {r : Retrier} {u : Bytes} (o : WriteOutcome E) (b : Bytes)
    → All IsByte (sent_part o b)
    → r.retry_complete ≡ true
    → IsFaithful r u
    → IsFaithful (record r { conn = write o b r.conn; retry_complete = true }) (u ++ sent_part o b)
direct-IsFaithful {E} {r} {u} o b bytes done f = record {
  open_hello = λ h. cc;
  open_sent = λ h. cc;
  done_hello = λ h. f.done_hello done;
  stream = write-SameStream o b r.conn u f.stream;
  bytes = All-append IsByte u (sent_part o b) f.bytes bytes;
}

pub write_begin-IsFaithful :
    {E : Type 0} {r : Retrier} {u : Bytes} (o : WriteOutcome E) (now : ℕ) (b : Bytes)
    → All IsByte (sent_part o b)
    → IsFaithful r u
    → IsFaithful (write_begin o now b r).1 (u ++ sent_part o b)
unfolding write_begin
write_begin-IsFaithful {E} {r} {u} o now b bytes f = elim (Bool-cases r.retry_complete) [
  | inl done ↦ simp done (direct-IsFaithful o b bytes done f)
  | inr fresh ↦ simp fresh (record {
    open_hello = λ h.
        ap (λ z. z ++ take (written o b) b) (f.open_hello fresh)
        ∙ ap (λ z. u ++ z) (take-written o b);
    open_sent = λ h.
        flatten-concat r.conn.segments (sent_part o b)
        ∙ ap (λ z. z ++ sent_part o b) (f.open_sent fresh);
    done_hello = λ h. cc;
    stream = write-SameStream o b r.conn u f.stream;
    bytes = All-append IsByte u (sent_part o b) f.bytes bytes;
  })
]

pub sent_part_nil :
    {E : Type 0} (o : WriteOutcome E) (b : Bytes) → length b ≡ 0 → sent_part o b ≡ []
sent_part_nil full b h = nil_of_length b h
sent_part_nil (short zero e) b h = refl
sent_part_nil (short (suc n) e) b h = ap (take (suc n)) (nil_of_length b h)

pub write_resume-IsFaithful :
    {E : Type 0} {r : Retrier} {u : Bytes} (o : WriteOutcome E) (b : Bytes) (n : ℕ) (e : E)
    → All IsByte (sent_part o (drop n b))
    → r.retry_complete ≡ true
    → IsFaithful r u
    → IsFaithful (write_resume o b n e r).1 (u ++ sent_part o (drop n b))
unfolding write_resume
write_resume-IsFaithful {E} {r} {u} o b n e bytes done f =
    simp done (elim (Bool-cases (length (drop n b) == 0)) [
      | inl z ↦ rw z (rw (sent_part_nil o (drop n b) (ground arith)) (rw append-nil f))
      | inr more ↦ rw more (direct-IsFaithful o (drop n b) bytes done f)
    ])

pub All-sent_part :
    {E : Type 0} (o : WriteOutcome E) (b : Bytes) → All IsByte b → All IsByte (sent_part o b)
All-sent_part full b h = h
All-sent_part (short n e) b h = All-take IsByte n b h

-- What the kernel takes from a reader, on the final connection.
pub final-IsFaithful :
    {r : Retrier} {u : Bytes} (chunks : List Bytes)
    → All IsByte (flatten chunks)
    → r.retry_complete ≡ true
    → IsFaithful r u
    → IsFaithful (record r { conn = read_from chunks r.conn }) (u ++ flatten chunks)
final-IsFaithful {r} {u} chunks bytes done f = record {
  open_hello = λ h. cc;
  open_sent = λ h. cc;
  done_hello = f.done_hello;
  stream = λ rest.
      ap (λ z. peer_reads (z ++ rest)) (flatten-append r.conn.segments chunks)
      ∙ ap peer_reads (append_assoc (flatten r.conn.segments) (flatten chunks) rest)
      ∙ f.stream (flatten chunks ++ rest)
      ∙ ap peer_reads (sym (append_assoc u (flatten chunks) rest));
  bytes = All-append IsByte u (flatten chunks) f.bytes bytes;
}
