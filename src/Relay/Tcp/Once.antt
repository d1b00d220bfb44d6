-- ===== src/Relay/Tcp/Once.antt =====
-- In every order of calls the wait group is not overdrawn, and one summary is reported.
use localdns_go.Prelude.{
  some_eq, ℕ, zero, suc, ◌+◌, ◌-◌, ◌%◌, ◌^◌, ◌≤◌, ◌<◌, ◌≡◌, refl, sym, ◌∙◌, Bool, true, false, not,
  ◌&&◌, Option, none, some, List, [], ◌∷◌, length, length-append, ◌==◌, if◌then◌else◌, arith,
  Bool-cases, inl, inr, ◌⊎◌,
}
use localdns_go.Relay.Tcp.{
  Flow, new_flow, finish_read, finish_write, close_flow, count_download, count_upload,
  wait_and_report, FlowEvent, flow_closes, flow_closes_read, flow_closes_write, downloads, uploads,
  waits, flow_step, run_flow, wait_done, flow_then, settle,
}

abbrev pub open_side : Bool → ℕ
open_side b = if b then 0 else 1

-- The counter is the number of sides that are not closed, and there is at most one report, behind the
-- close of both.
pub record IsBalanced (f : Flow) : Type 0 where
  pub counter : f.pending ≡ open_side f.r_done + open_side f.w_done
  pub behind_both : f.settled ≡ true → f.pending ≡ 0
  pub reported : length f.reports ≡ (if f.settled && f.has_listener then 1 else 0)

-- The outcome of a step: no panic, and a balanced flow.
abbrev pub Balances : Option Flow → Type 0
Balances none = ⊥
Balances (some f) = IsBalanced f

wait_done-Balances :
    (n : ℕ) (f : Flow)
    → n ≡ suc (open_side f.r_done + open_side f.w_done)
    → f.settled ≡ false
    → length f.reports ≡ 0
    → Balances (wait_done n f)
unfolding wait_done
wait_done-Balances zero f h s r = absurd (omega arith)
wait_done-Balances (suc n) f h s r = record {
  counter = omega arith;
  behind_both = λ e. cc;
  reported = rw s r;
}

unsettled : {f : Flow} → IsBalanced f → 0 < f.pending → f.settled ≡ false
unsettled {f} b lt = elim (Bool-cases f.settled) [
  | inl e ↦ absurd (omega (arith, b.behind_both e))
  | inr e ↦ e
]

nothing_reported : {f : Flow} → IsBalanced f → 0 < f.pending → length f.reports ≡ 0
nothing_reported {f} b lt = let e = unsettled b lt in b.reported ∙ simp e refl

finish_read-Balances : {f : Flow} → IsBalanced f → Balances (finish_read f)
unfolding finish_read
finish_read-Balances {f} b = elim (Bool-cases f.r_done) [
  | inl done ↦ simp done b
  | inr fresh ↦
      let left : f.pending ≡ suc (open_side f.w_done) = b.counter ∙ simp fresh (omega arith) in
      simp fresh (
        wait_done-Balances f.pending (record f { r_done = true }) (omega arith)
          (unsettled b (omega arith)) (nothing_reported b (omega arith)))
]

finish_write-Balances : {f : Flow} → IsBalanced f → Balances (finish_write f)
unfolding finish_write
finish_write-Balances {f} b = elim (Bool-cases f.w_done) [
  | inl done ↦ simp done b
  | inr fresh ↦
      let left : f.pending ≡ suc (open_side f.r_done + 0) = b.counter ∙ simp fresh (omega arith) in
      simp fresh (
        wait_done-Balances f.pending (record f { w_done = true }) (omega arith)
          (unsettled b (omega arith)) (nothing_reported b (omega arith)))
]

then_write :
    (x : Option Flow) → Balances x → Balances (elim x [ none ↦ none | some f' ↦ finish_write f' ])
then_write none h = h
then_write (some f) h = finish_write-Balances h

wait_and_report-IsBalanced :
    (now : ℕ) {f : Flow} → IsBalanced f → IsBalanced (wait_and_report now f)
unfolding wait_and_report settle
wait_and_report-IsBalanced now {f} b = elim (Bool-cases (f.pending == 0 && not f.settled)) [
  | inr other ↦ simp other b
  | inl ready ↦ simp ready (record {
    counter = b.counter;
    behind_both = λ e. ground arith;
    reported = ground (
      arith,
      b.reported,
      length-append f.reports (record f.stats { duration = (now - f.begin_time) % 2 ^ 32 } ∷ []),
    );
  })
]

flow_step-Balances : (e : FlowEvent) {f : Flow} → IsBalanced f → Balances (flow_step e f)
unfolding flow_step close_flow count_download count_upload
flow_step-Balances flow_closes b = then_write _ (finish_read-Balances b)
flow_step-Balances flow_closes_read b = finish_read-Balances b
flow_step-Balances flow_closes_write b = finish_write-Balances b
flow_step-Balances (downloads n) b = record {
  counter = b.counter;
  behind_both = b.behind_both;
  reported = b.reported;
}
flow_step-Balances (uploads n) b = record {
  counter = b.counter;
  behind_both = b.behind_both;
  reported = b.reported;
}
flow_step-Balances (waits now) b = wait_and_report-IsBalanced now b

flow_then-Balances :
    (x : Option Flow) (k : Flow → Option Flow)
    → Balances x
    → ((f : Flow) → IsBalanced f → Balances (k f))
    → Balances (flow_then x k)
unfolding flow_then
flow_then-Balances none k h g = h
flow_then-Balances (some f) k h g = g f h

run_flow-Balances : (es : List FlowEvent) {f : Flow} → IsBalanced f → Balances (run_flow es f)
unfolding run_flow
run_flow-Balances [] b = b
run_flow-Balances (e ∷ es) {f} b =
    flow_then-Balances (flow_step e f) (run_flow es) (flow_step-Balances e b)
      (λ f' b'. run_flow-Balances es b')

new_flow-IsBalanced :
    (port : ℕ) (has_listener : Bool) (now : ℕ) → IsBalanced (new_flow port has_listener now)
unfolding new_flow
new_flow-IsBalanced port has_listener now = record {
  counter = refl;
  behind_both = λ e. cc;
  reported = refl;
}

to_some : (x : Option Flow) → Balances x → (f : Flow) × (x ≡ some f) × IsBalanced f
to_some none h = absurd h
to_some (some f) h = (f, refl, h)

-- From the wrapping of a connection on, no sequence of closes of either side or both, reads, writes and
-- runs of the waiting goroutine overdraws the wait group: each of them returns. The group then counts
-- the sides that are not closed.
pub run_flow_total :
    (es : List FlowEvent) (port : ℕ) (has_listener : Bool) (now : ℕ)
    → (f : Flow) × (run_flow es (new_flow port has_listener now) ≡ some f)
      × (f.pending ≡ open_side f.r_done + open_side f.w_done)
run_flow_total es port has_listener now =
    let (f, e, b) = to_some _ (run_flow-Balances es (new_flow-IsBalanced port has_listener now)) in
    (f, e, b.counter)

-- In any sequence of closes, reads, writes and runs of the waiting goroutine on a newly wrapped
-- connection the listener gets at most one summary, and if it has got one then both sides are
-- closed.
pub one_report :
    (es : List FlowEvent) (port : ℕ) (has_listener : Bool) (now : ℕ) (f : Flow)
    → run_flow es (new_flow port has_listener now) ≡ some f
    → (length f.reports ≤ 1) × ((length f.reports ≡ 0) ⊎ ((f.r_done ≡ true) × (f.w_done ≡ true)))
one_report es port has_listener now f run =
    let (f', e, b) = to_some _ (run_flow-Balances es (new_flow-IsBalanced port has_listener now)) in
    let same : f' ≡ f = some_eq (sym e ∙ run) in
    rw (sym same) (elim (Bool-cases f'.settled) [
      | inr early ↦
          let none_yet : length f'.reports ≡ 0 = b.reported ∙ simp early refl in
          (omega arith, inl none_yet)
      | inl over ↦ (
        ground (arith, b.reported),
        inr (
          ground (arith, b.counter, b.behind_both over),
          ground (arith, b.counter, b.behind_both over),
        ),
      )
    ])
