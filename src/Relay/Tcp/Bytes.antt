-- ===== src/Relay/Tcp/Bytes.antt =====
-- The statistics count what the calls moved.
use localdns_go.Prelude.{
  ℕ, zero, suc, ◌+◌, ◌≡◌, sym, Bool, true, not, ◌&&◌, Option, none, some, List, [], ◌∷◌, ◌==◌,
  arith, Bool-cases, inl, inr,
}
use localdns_go.Relay.Tcp.{
  Flow, new_flow, finish_read, finish_write, close_flow, count_download, count_upload,
  wait_and_report, FlowEvent, flow_closes, flow_closes_read, flow_closes_write, downloads, uploads,
  waits, flow_step, run_flow, wait_done, flow_then, settle,
}

-- the bytes that the events download and upload
abbrev pub download_of : FlowEvent → ℕ
download_of (downloads n) = n
download_of _ = 0

abbrev pub upload_of : FlowEvent → ℕ
upload_of (uploads n) = n
upload_of _ = 0

abbrev pub downloaded : List FlowEvent → ℕ
downloaded [] = 0
downloaded (e ∷ es) = download_of e + downloaded es

abbrev pub uploaded : List FlowEvent → ℕ
uploaded [] = 0
uploaded (e ∷ es) = upload_of e + uploaded es

-- The counters of a flow, beside those of an earlier one.
record Moved (f f' : Flow) (down up : ℕ) : Type 0 where
  by_down : f'.stats.download_bytes ≡ f.stats.download_bytes + down
  by_up : f'.stats.upload_bytes ≡ f.stats.upload_bytes + up

abbrev Moves : Flow → ℕ → ℕ → Option Flow → Type 0
Moves f down up none = Unit
Moves f down up (some f') = Moved f f' down up

stay : (f : Flow) → Moved f f 0 0
stay f = record { by_down = omega arith; by_up = omega arith }

wait_done-Moves : (n : ℕ) (f g : Flow) → Moved f g 0 0 → Moves f 0 0 (wait_done n g)
unfolding wait_done
wait_done-Moves zero f g m = tt
wait_done-Moves (suc n) f g m = record { by_down = m.by_down; by_up = m.by_up }

finish_read-Moves : (f g : Flow) → Moved f g 0 0 → Moves f 0 0 (finish_read g)
unfolding finish_read
finish_read-Moves f g m = elim (Bool-cases g.r_done) [
  | inl done ↦ simp done m
  | inr fresh ↦ simp fresh (
      wait_done-Moves g.pending f (record g { r_done = true })
        (record { by_down = m.by_down; by_up = m.by_up }))
]

finish_write-Moves : (f g : Flow) → Moved f g 0 0 → Moves f 0 0 (finish_write g)
unfolding finish_write
finish_write-Moves f g m = elim (Bool-cases g.w_done) [
  | inl done ↦ simp done m
  | inr fresh ↦ simp fresh (
      wait_done-Moves g.pending f (record g { w_done = true })
        (record { by_down = m.by_down; by_up = m.by_up }))
]

then_write :
    (f : Flow) (x : Option Flow)
    → Moves f 0 0 x
    → Moves f 0 0 (elim x [ none ↦ none | some g ↦ finish_write g ])
then_write f none m = tt
then_write f (some g) m = finish_write-Moves f g m

wait_and_report-Moved : (now : ℕ) (f : Flow) → Moved f (wait_and_report now f) 0 0
unfolding wait_and_report settle
wait_and_report-Moved now f = elim (Bool-cases (f.pending == 0 && not f.settled)) [
  | inl ready ↦ simp ready (record { by_down = omega arith; by_up = omega arith })
  | inr other ↦ simp other (stay f)
]

flow_step-Moves : (e : FlowEvent) (f : Flow) → Moves f (download_of e) (upload_of e) (flow_step e f)
unfolding flow_step close_flow count_download count_upload
flow_step-Moves flow_closes f = then_write f (finish_read f) (finish_read-Moves f f (stay f))
flow_step-Moves flow_closes_read f = finish_read-Moves f f (stay f)
flow_step-Moves flow_closes_write f = finish_write-Moves f f (stay f)
flow_step-Moves (downloads n) f = record { by_down = omega arith; by_up = omega arith }
flow_step-Moves (uploads n) f = record { by_down = omega arith; by_up = omega arith }
flow_step-Moves (waits now) f = wait_and_report-Moved now f

flow_then-Moved :
    (x : Option Flow) (k : Flow → Option Flow) (f f' : Flow) (d u d' u' : ℕ)
    → Moves f d u x
    → ((g : Flow) → k g ≡ some f' → Moved g f' d' u')
    → flow_then x k ≡ some f'
    → Moved f f' (d + d') (u + u')
unfolding flow_then
flow_then-Moved none k f f' d u d' u' m h e = cc
flow_then-Moved (some g) k f f' d u d' u' m h e =
    let later = h g e in
    record {
      by_down = omega (arith, m.by_down, later.by_down);
      by_up = omega (arith, m.by_up, later.by_up);
    }

run_flow-Moved :
    (es : List FlowEvent) (f f' : Flow)
    → run_flow es f ≡ some f'
    → Moved f f' (downloaded es) (uploaded es)
unfolding run_flow
run_flow-Moved [] f f' e = let same : f ≡ f' = cc in rw (sym same) (stay f)
run_flow-Moved (ev ∷ es) f f' e =
    flow_then-Moved (flow_step ev f) (run_flow es) f f' _ _ _ _ (flow_step-Moves ev f)
      (λ g h. run_flow-Moved es g f' h) e

-- After any sequence of calls and of runs of the waiting goroutine, the statistics hold the sums of what
-- the reads and of what the writes returned, closes before, between and behind them notwithstanding.
pub bytes-run_flow :
    (es : List FlowEvent) (port : ℕ) (has_listener : Bool) (now : ℕ) (f : Flow)
    → run_flow es (new_flow port has_listener now) ≡ some f
    → (f.stats.download_bytes ≡ downloaded es) × (f.stats.upload_bytes ≡ uploaded es)
unfolding new_flow
bytes-run_flow es port has_listener now f run =
    let m = run_flow-Moved es (new_flow port has_listener now) f run in
    (omega (arith, m.by_down), omega (arith, m.by_up))
