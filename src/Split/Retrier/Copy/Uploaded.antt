-- ===== src/Split/Retrier/Copy/Uploaded.antt =====
-- What `ReadFrom` has uploaded when it returns.
use localdns_go.Prelude.{
  ℕ, suc, ◌+◌, ◌≡◌, refl, sym, ap, ◌∙◌, subst, inl, inr, Bool, true, false, Option, none, some,
  some_eq, List, [], ◌∷◌, ◌++◌, length, take, map, All, arith, append_assoc, length-append,
  Bool-cases, Option-cases, if◌then◌else◌,
}
use localdns_go.Prelude.Words.{Bytes}
use localdns_go.Split.Conn.{flatten}
use localdns_go.Split.Frames.{peer_reads}
use localdns_go.Split.Frames.Fragments.{IsByte}
use localdns_go.Split.Retrier.{Retrier, RetryStats, new_retrier}
use localdns_go.Split.Retrier.Steps.{Reach, here, next, passes}
use localdns_go.Split.Retrier.Replay.{upload_survives_retry}
use localdns_go.Split.Retrier.Copy.{
  Turn, chunk_of, copy_turn, pass_rest, after_turn, retrier_read_from,
}
use localdns_go.Split.Retrier.Copy.Turns.{Fits, TurnEnds, copy_turn-TurnEnds}

if_true : {A : Type 0} (b : Bool) (x y z : A) → b ≡ true → (if b then x else y) ≡ z → x ≡ z
if_true true x y z h e = e
if_true false x y z h e = cc

if_false : {A : Type 0} (b : Bool) (x y z : A) → b ≡ false → (if b then x else y) ≡ z → y ≡ z
if_false false x y z h e = e
if_false true x y z h e = cc

ThenFits : {E : Type 0} → (Retrier → Type 0) → Option (ℕ × Option E × Retrier) → Type 0
ThenFits fit (some (n, none, r)) = fit r
ThenFits fit _ = Unit

module _ {E : Type 0} (net_timeout : E → Option Bool) where
  -- The turns that are taken from the state `r` on fit, each in the state that the one before it leaves.
  unfoldable pub FitAll : List (Turn E) → Retrier → Type 0
  unfolding ThenFits
  FitAll [] r = Unit
  FitAll (t ∷ ts) r = Fits net_timeout t r × ThenFits (FitAll ts) (copy_turn net_timeout t r)

module _ {E : Type 0} (net_timeout : E → Option Bool) (r0 : Retrier) where
  record CopyEnds (ts : List (Turn E)) (chunks : List Bytes) (u : Bytes) (bytes n : ℕ)
      (e : Option E) (r' : Retrier) : Type 0 where
    uploaded : Bytes
    reached : Reach net_timeout r0 r' (u ++ uploaded)
    counted : n ≡ bytes + length uploaded
    whole :
        e ≡ none → (used : ℕ) × (uploaded ≡ flatten (take used (map chunk_of ts)) ++ flatten chunks)

  pass_rest-CopyEnds :
      (ts : List (Turn E)) (chunks : List Bytes) (e : Option E) (bytes : ℕ) (r : Retrier)
      (u : Bytes) (n : ℕ) (e' : Option E) (r' : Retrier)
      → All IsByte (flatten chunks)
      → Reach net_timeout r0 r u
      → r.retry_complete ≡ true
      → some (pass_rest bytes chunks e r) ≡ some (n, e', r')
      → CopyEnds ts chunks u bytes n e' r'
  unfolding pass_rest
  pass_rest-CopyEnds ts chunks e bytes r u n e' r' fits run done ends =
      let same = some_eq ends in
      record {
        uploaded = flatten chunks;
        reached =
            subst (λ z. Reach net_timeout r0 z (u ++ flatten chunks))
              (ap (λ (z : ℕ × Option E × Retrier). z.2) same) (next run (passes chunks fits done));
        counted = sym (ap (λ (z : ℕ × Option E × Retrier). z.0) same);
        whole = λ h. (0, refl);
      }

  later-CopyEnds :
      (t : Turn E) (ts : List (Turn E)) (chunks : List Bytes) (u : Bytes) (bytes k n : ℕ)
      (r1 : Retrier) (e : Option E) (r' : Retrier)
      → (x : TurnEnds net_timeout r0 t u k none r1)
      → CopyEnds ts chunks (u ++ x.uploaded) (bytes + k) n e r'
      → CopyEnds (t ∷ ts) chunks u bytes n e r'
  later-CopyEnds t ts chunks u bytes k n r1 e r' x y = record {
    uploaded = x.uploaded ++ y.uploaded;
    reached = subst (Reach net_timeout r0 r') (append_assoc u x.uploaded y.uploaded) y.reached;
    counted = omega (arith, x.counted, y.counted, length-append x.uploaded y.uploaded);
    whole = λ h.
        let (used, same) = y.whole h in
        (
          suc used,
          ap (λ z. z ++ y.uploaded) (x.whole refl)
              ∙ ap (λ z. chunk_of t ++ z) same
              ∙ sym (
                  append_assoc (chunk_of t) (flatten (take used (map chunk_of ts)))
                    (flatten chunks)),
        );
  }

  retrier_read_from-CopyEnds :
      (ts : List (Turn E)) (chunks : List Bytes) (e : Option E) (bytes : ℕ) (r : Retrier)
      (u : Bytes) (n : ℕ) (e' : Option E) (r' : Retrier)
      → FitAll net_timeout ts r
      → All IsByte (flatten chunks)
      → Reach net_timeout r0 r u
      → retrier_read_from net_timeout ts chunks e bytes r ≡ some (n, e', r')
      → CopyEnds ts chunks u bytes n e' r'
  unfolding retrier_read_from after_turn FitAll
  retrier_read_from-CopyEnds [] chunks e bytes r u n e' r' fits more run ends =
      elim (Bool-cases r.retry_complete) [
        | inr fresh ↦ cc (rw fresh at ends)
        | inl done ↦
            pass_rest-CopyEnds [] chunks e bytes r u n e' r' more run done
              (if_true r.retry_complete _ _ _ done ends)
      ]
  retrier_read_from-CopyEnds (t ∷ ts) chunks e bytes r u n e' r' fits more run ends =
      elim (Bool-cases r.retry_complete) [
        | inl done ↦
            pass_rest-CopyEnds (t ∷ ts) chunks e bytes r u n e' r' more run done
              (if_true r.retry_complete _ _ _ done ends)
        | inr fresh ↦
            let go = if_false r.retry_complete _ _ _ fresh ends in
            elim (Option-cases (copy_turn net_timeout t r)) [
              | inl waits ↦ cc (rw waits at go)
              | inr ((k, some x, r1), turn) ↦
                  let same = some_eq (rw turn at go) in
                  let y = copy_turn-TurnEnds net_timeout r0 t r u k (some x) r1 fits.0 run turn in
                  record {
                    uploaded = y.uploaded;
                    reached =
                        subst (λ z. Reach net_timeout r0 z (u ++ y.uploaded))
                          (ap (λ (z : ℕ × Option E × Retrier). z.2) same) y.reached;
                    counted =
                        omega (arith, y.counted, ap (λ (z : ℕ × Option E × Retrier). z.0) same);
                    whole = λ h. cc (ap (λ (z : ℕ × Option E × Retrier). z.1) same, h);
                  }
              | inr ((k, none, r1), turn) ↦
                  let y = copy_turn-TurnEnds net_timeout r0 t r u k none r1 fits.0 run turn in
                  later-CopyEnds t ts chunks u bytes k n r1 e' r' y (
                    retrier_read_from-CopyEnds ts chunks e (bytes + k) r1 (u ++ y.uploaded) n e' r'
                      (rw turn at fits.1) more y.reached (rw turn at go))
            ]
      ]

-- `ReadFrom` on a new retrier, while other goroutines read from it between its steps, each read returning
-- no error, also where it retries, for a source of bytes: when it returns `n`, it has uploaded `n` bytes, and the peer of
-- the connection that is then in use reads, with any `rest` behind it, what it would read from these
-- bytes. If it returns no error, they are those of its first turns and of what the connection took.
pub retrier_read_from_uploads :
    {E : Type 0} (net_timeout : E → Option Bool) (before after : ℕ) (stats : RetryStats)
    (ts : List (Turn E)) (chunks : List Bytes) (e e' : Option E) (n : ℕ) (r : Retrier)
    → FitAll net_timeout ts (new_retrier before after stats)
    → All IsByte (flatten chunks)
    → retrier_read_from net_timeout ts chunks e 0 (new_retrier before after stats) ≡ some (n, e', r)
    → (uploaded : Bytes) × (n ≡ length uploaded)
      × ((rest : Bytes)
          → peer_reads (flatten r.conn.segments ++ rest) ≡ peer_reads (uploaded ++ rest))
      × (e' ≡ none
          → (used : ℕ) × (uploaded ≡ flatten (take used (map chunk_of ts)) ++ flatten chunks))
retrier_read_from_uploads net_timeout before after stats ts chunks e e' n r fits more ends =
    let x =
      retrier_read_from-CopyEnds net_timeout (new_retrier before after stats) ts chunks e 0
        (new_retrier before after stats) [] n e' r fits more here ends in
    (
      x.uploaded,
      omega (arith, x.counted),
      (λ rest. upload_survives_retry before after stats rest x.reached),
      x.whole,
    )
