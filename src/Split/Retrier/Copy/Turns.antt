-- ===== src/Split/Retrier/Copy/Turns.antt =====
-- What one turn of the loop of `ReadFrom` uploads.
use localdns_go.Prelude.{
  ℕ, ◌+◌, ◌≡◌, refl, sym, ap, ◌∙◌, subst, ◌⊎◌, inl, inr, Bool, true, Option, none, some, some_eq,
  List, [], ◌∷◌, ◌++◌, length, drop, All, arith, append-nil, append_assoc, take-append-drop,
  length-take, length-append, Bool-cases, Option-cases, ◌==◌,
}
use localdns_go.Prelude.Words.{Bytes}
use localdns_go.Split.Conn.{WriteOutcome, full, short, sent_part, written, write_error}
use localdns_go.Split.Frames.Fragments.{IsByte}
use localdns_go.Split.Retrier.{
  Retrier, ReadEnv, returned, waiting, read, attempt, write_begin, write_resume,
}
use localdns_go.Split.Retrier.Faithful.{take-written, sent_part_nil}
use localdns_go.Split.Retrier.Steps.{Reach, next, reads, writes, resumes}
use localdns_go.Split.Retrier.Copy.{Turn, chunk_of, others_read, resumed, begun, copy_turn}

length-sent_part :
    {E : Type 0} (o : WriteOutcome E) (b : Bytes) → length (sent_part o b) ≡ written o b
length-sent_part full b = refl
length-sent_part (short n e) b = length-take n b

sent_whole :
    {E : Type 0} (o : WriteOutcome E) (b : Bytes) → write_error o ≡ none → sent_part o b ≡ b
sent_whole full b h = refl
sent_whole (short n e) b h = cc

module _ {E : Type 0} (net_timeout : E → Option Bool) where
  -- Reads of other goroutines, from the state `r` on, each of which returns no error: after a retry that
  -- worked, if its first attempt failed.
  abbrev pub AreQuiet : List (ℕ × ReadEnv E) → Retrier → Type 0
  AreQuiet [] r = Unit
  AreQuiet ((room, v) ∷ vs) r =
      ((read net_timeout room v r).error ≡ none) × AreQuiet vs (read net_timeout room v r).state

  -- A turn from `r` on with such reads only, and bytes from the source.
  abbrev pub Fits : Turn E → Retrier → Type 0
  Fits t r =
      let r1 = others_read net_timeout t.before r in
      AreQuiet t.before r
      × AreQuiet t.meanwhile (write_begin t.outcome t.now (chunk_of t) r1).1
      × All IsByte (chunk_of t)

  others_read-Reach :
      {r0 : Retrier} (vs : List (ℕ × ReadEnv E)) {r : Retrier} {u : Bytes}
      → AreQuiet vs r
      → Reach net_timeout r0 r u
      → Reach net_timeout r0 (others_read net_timeout vs r) u
  unfolding others_read
  others_read-Reach [] quiet run = run
  others_read-Reach ((room, v) ∷ vs) {r} quiet run =
      others_read-Reach vs quiet.1 (next run (reads room v quiet.0))

module _ {E : Type 0} where
  attempt_ends :
      (o : WriteOutcome E) (b : Bytes)
      → (attempt o b ≡ returned (written o b) (write_error o))
        ⊎ ((e : E) × (attempt o b ≡ waiting (written o b) e))
  unfolding attempt
  attempt_ends full b = inl refl
  attempt_ends (short n e) b = inr (e, refl)

  -- How the two parts of a write end.
  write_begin_ends :
      (o : WriteOutcome E) (now : ℕ) (b : Bytes) (r : Retrier)
      → ((write_begin o now b r).0 ≡ returned (written o b) (write_error o))
        ⊎ ((e : E) × ((write_begin o now b r).0 ≡ waiting (written o b) e))
  unfolding write_begin attempt
  write_begin_ends o now b r = elim (Bool-cases r.retry_complete) [
    | inl done ↦ inl (rw done refl)
    | inr fresh ↦ elim (attempt_ends o b) [
      | inl fine ↦ inl (rw fresh fine)
      | inr (e, bad) ↦ inr (e, rw fresh bad)
    ]
  ]

  -- A resumed write that has returned.
  record Resumed (o : WriteOutcome E) (b : Bytes) (n : ℕ) (e : E) (r : Retrier) (k : ℕ)
      (e' : Option E) (r' : Retrier) : Type 0 where
    done : r.retry_complete ≡ true
    state : (write_resume o b n e r).1 ≡ r'
    count : k ≡ n + length (sent_part o (drop n b))
    whole : e' ≡ none → sent_part o (drop n b) ≡ drop n b

  resumed-Resumed :
      (o : WriteOutcome E) (b : Bytes) (n : ℕ) (e : E) (r : Retrier) (k : ℕ) (e' : Option E)
      (r' : Retrier)
      → resumed (write_resume o b n e r) ≡ some (k, e', r')
      → Resumed o b n e r k e' r'
  unfolding write_resume resumed
  resumed-Resumed o b n e r k e' r' run = elim (Bool-cases r.retry_complete) [
    | inr fresh ↦ cc (rw (fresh, write_resume) at run)
    | inl done ↦ elim (Bool-cases (length (drop n b) == 0)) [
      | inl nothing ↦
          let same = some_eq (rw (done, nothing, write_resume) at run) in
          let no_bytes : sent_part o (drop n b) ≡ [] = sent_part_nil o (drop n b) (ground arith) in
          record {
            done = done;
            state = rw (done, nothing) (ap (λ (z : ℕ × Option E × Retrier). z.2) same);
            count =
                omega (arith, ap (λ (z : ℕ × Option E × Retrier). z.0) same, ap length no_bytes);
            whole = λ h. cc (ap (λ (z : ℕ × Option E × Retrier). z.1) same, h);
          }
      | inr more ↦
          let same = some_eq (rw (done, more, write_resume) at run) in
          record {
            done = done;
            state = rw (done, more) (ap (λ (z : ℕ × Option E × Retrier). z.2) same);
            count = omega (
              arith,
              ap (λ (z : ℕ × Option E × Retrier). z.0) same,
              length-sent_part o (drop n b),
            );
            whole =
                λ h. sent_whole o (drop n b) (ap (λ (z : ℕ × Option E × Retrier). z.1) same ∙ h);
          }
    ]
  ]

module _ {E : Type 0} (net_timeout : E → Option Bool) (r0 : Retrier) where
  -- A turn that ends in the state `r'` with the count `n` and the error `e`: what it has uploaded.
  pub record TurnEnds (t : Turn E) (u : Bytes) (n : ℕ) (e : Option E) (r' : Retrier) : Type 0 where
    pub uploaded : Bytes
    pub reached : Reach net_timeout r0 r' (u ++ uploaded)
    pub counted : n ≡ length uploaded
    pub whole : e ≡ none → uploaded ≡ chunk_of t

  begun-TurnEnds :
      (t : Turn E) (r : Retrier) (u : Bytes) (n : ℕ) (e : Option E) (r' : Retrier)
      → AreQuiet net_timeout t.meanwhile (write_begin t.outcome t.now (chunk_of t) r).1
      → All IsByte (chunk_of t)
      → Reach net_timeout r0 r u
      → begun net_timeout t (write_begin t.outcome t.now (chunk_of t) r) ≡ some (n, e, r')
      → TurnEnds t u n e r'
  unfolding begun
  begun-TurnEnds t r u n e r' q' bytes run ends =
      let b = chunk_of t in
      let sent = sent_part t.outcome b in
      let after : Reach net_timeout r0
          (others_read net_timeout t.meanwhile (write_begin t.outcome t.now b r).1) (u ++ sent) =
        others_read-Reach net_timeout t.meanwhile q' (next run (writes t.outcome t.now b bytes)) in
      elim (write_begin_ends t.outcome t.now b r) [
        | inl fine ↦
            let same = some_eq (rw (fine, begun) at ends) in
            record {
              uploaded = sent;
              reached =
                  subst (λ z. Reach net_timeout r0 z (u ++ sent))
                    (ap (λ (z : ℕ × Option E × Retrier). z.2) same) after;
              counted =
                  sym (ap (λ (z : ℕ × Option E × Retrier). z.0) same)
                  ∙ sym (length-sent_part t.outcome b);
              whole =
                  λ h. sent_whole t.outcome b (ap (λ (z : ℕ × Option E × Retrier). z.1) same ∙ h);
            }
        | inr (bad, waits) ↦
            let k = written t.outcome b in
            let rest = sent_part t.rest_outcome (drop k b) in
            let x =
              resumed-Resumed t.rest_outcome b k bad
                (others_read net_timeout t.meanwhile (write_begin t.outcome t.now b r).1) n e r'
                (rw (waits, begun) at ends) in
            record {
              uploaded = sent ++ rest;
              reached =
                  subst (λ z. Reach net_timeout r0 z (u ++ (sent ++ rest))) x.state
                    (subst (Reach net_timeout r0 _) (append_assoc u sent rest)
                      (next after (resumes t.rest_outcome b k bad bytes x.done)));
              counted =
                  omega (arith, x.count, length-append sent rest, length-sent_part t.outcome b);
              whole = λ h.
                  ap (λ z. sent ++ z) (x.whole h)
                  ∙ ap (λ z. z ++ drop k b) (sym (take-written t.outcome b))
                  ∙ take-append-drop k b;
            }
      ]

  pub copy_turn-TurnEnds :
      (t : Turn E) (r : Retrier) (u : Bytes) (n : ℕ) (e : Option E) (r' : Retrier)
      → Fits net_timeout t r
      → Reach net_timeout r0 r u
      → copy_turn net_timeout t r ≡ some (n, e, r')
      → TurnEnds t u n e r'
  unfolding copy_turn
  copy_turn-TurnEnds t r u n e r' fits run ends =
      let before = others_read-Reach net_timeout t.before fits.0 run in
      elim (Option-cases t.source.error) [
        | inl fine ↦
            begun-TurnEnds t (others_read net_timeout t.before r) u n e r' fits.1 fits.2 before
              (rw (fine, copy_turn) at ends)
        | inr (x, bad) ↦
            let same = some_eq (rw (bad, copy_turn) at ends) in
            record {
              uploaded = [];
              reached =
                  subst (λ z. Reach net_timeout r0 z (u ++ []))
                    (ap (λ (z : ℕ × Option E × Retrier). z.2) same)
                    (subst (Reach net_timeout r0 _) (sym (append-nil u)) before);
              counted = sym (ap (λ (z : ℕ × Option E × Retrier). z.0) same);
              whole = λ h. cc (ap (λ (z : ℕ × Option E × Retrier). z.1) same, h);
            }
      ]
