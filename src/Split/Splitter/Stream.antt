-- ===== src/Split/Splitter/Stream.antt =====
-- The stream and the counts of a splitter.
use localdns_go.Prelude.{
  ℕ, ◌≡◌, refl, sym, ap, ◌∙◌, true, none, List, [], ◌∷◌, ◌++◌, All, arith, append-nil, append_assoc,
}
use localdns_go.Prelude.Words.{Bytes}
use localdns_go.Split.Conn.{
  Conn, WriteOutcome, full, short, flatten, flatten-concat, write, write_error,
}
use localdns_go.Split.Frames.{peer_reads, SameStream}
use localdns_go.Split.Frames.Fragments.{IsByte}
use localdns_go.Split.Frames.Delivery.{peer_reads-split_hello}
use localdns_go.Split.Splitter.{Splitter, Written, new_splitter, splitter_write}

-- One call of `Write`: the slice, the draw and how the writes of the connection end.
pub record WriteCall (E : Type 0) : Type 0 where
  pub slice : Bytes
  pub draw : ℕ
  pub o1 : WriteOutcome E
  pub o2 : WriteOutcome E

module _ {E : Type 0} where
  abbrev pub call : WriteCall E → Splitter → Written E Splitter
  call w s = splitter_write w.draw w.o1 w.o2 w.slice s

  abbrev pub run_writes : List (WriteCall E) → Splitter → Splitter
  run_writes [] s = s
  run_writes (w ∷ ws) s = run_writes ws (call w s).state

  -- Every call is given bytes and reports no error.
  abbrev pub Succeeds : List (WriteCall E) → Splitter → Type 0
  Succeeds [] s = Unit
  Succeeds (w ∷ ws) s =
      All IsByte w.slice × ((call w s).error ≡ none) × Succeeds ws (call w s).state

  abbrev pub slices : List (WriteCall E) → List Bytes
  slices [] = []
  slices (w ∷ ws) = w.slice ∷ slices ws

  used-call : (w : WriteCall E) (s : Splitter) → (call w s).state.used ≡ true
  unfolding splitter_write
  used-call w s = ground arith

  write-SameStream :
      (o : WriteOutcome E) (b : Bytes) (c : Conn) (u : Bytes)
      → SameStream (flatten c.segments) u
      → write_error o ≡ none
      → SameStream (flatten (write o b c).segments) (u ++ b)
  write-SameStream full b c u same ok rest =
      ap (λ z. peer_reads (z ++ rest)) (flatten-concat c.segments b)
      ∙ ap peer_reads (append_assoc (flatten c.segments) b rest)
      ∙ same (b ++ rest)
      ∙ ap peer_reads (sym (append_assoc u b rest))
  write-SameStream (short n e) b c u same ok rest = cc

  call-SameStream :
      (w : WriteCall E) (s : Splitter) (u : Bytes)
      → s.used ≡ true
      → SameStream (flatten s.conn.segments) u
      → (call w s).error ≡ none
      → SameStream (flatten (call w s).state.conn.segments) (u ++ w.slice)
  unfolding splitter_write
  call-SameStream w s u h same ok =
      simp h (write-SameStream w.o1 w.slice s.conn u same (simp h at ok))

  -- Behind the first write the slices go out as they are.
  used_writes-SameStream :
      (ws : List (WriteCall E)) (s : Splitter) (u : Bytes)
      → s.used ≡ true
      → SameStream (flatten s.conn.segments) u
      → Succeeds ws s
      → SameStream (flatten (run_writes ws s).conn.segments) (u ++ flatten (slices ws))
  used_writes-SameStream [] s u h same ok rest =
      same rest ∙ ap (λ z. peer_reads (z ++ rest)) (sym (append-nil u))
  used_writes-SameStream (w ∷ ws) s u h same ok rest =
      used_writes-SameStream ws (call w s).state (u ++ w.slice) (used-call w s)
        (call-SameStream w s u h same ok.1) ok.2 rest
      ∙ ap (λ z. peer_reads (z ++ rest)) (append_assoc u w.slice (flatten (slices ws)))

  -- Whatever the draws and the outcomes: if the slices are made of bytes and no write on a new
  -- splitter reports an error, the peer reads, with any `rest` behind it, what it would read from
  -- the slices one after the other.
  pub peer_reads-run_writes :
      (ws : List (WriteCall E)) (rest : Bytes)
      → Succeeds ws new_splitter
      → peer_reads (flatten (run_writes ws new_splitter).conn.segments ++ rest)
        ≡ peer_reads (flatten (slices ws) ++ rest)
  unfolding splitter_write
  peer_reads-run_writes [] rest ok = refl
  peer_reads-run_writes (w ∷ ws) rest ok =
      used_writes-SameStream ws (call w new_splitter).state w.slice refl
        (λ more. peer_reads-split_hello w.draw w.o1 w.o2 w.slice more ok.0 ok.1) ok.2 rest
