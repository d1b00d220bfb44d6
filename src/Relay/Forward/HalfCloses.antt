-- ===== src/Relay/Forward/HalfCloses.antt =====
-- The half-closes of a forwarded connection.
use localdns_go.Prelude.{
  sym, subst, All, All-append, ◌++◌, inl, inr, Bool-cases, refl, ◌≡◌, true, Bool, List, [], ◌∷◌,
  arith,
}
use localdns_go.Relay.Forward.{
  HalfClose, close_write, close_read, half_close, relay_tcp_ends, Side, device, target, CopyEvent,
  copies, ends, handler_runs, Relaying, relay_step, relay,
}
use localdns_go.Relay.Forward.Copies.{copy_to, if_true, if_false}

abbrev pub other : Side → Side
other target = device
other device = target

-- A half-close of a connection that can be half-closed, behind the end of its copy.
abbrev pub IsPermitted : (Side → Bool) → Relaying → HalfClose → Type 0
IsPermitted is_duplex s (close_write side) =
    (is_duplex side ≡ true) × ((copy_to side s).is_over ≡ true)
IsPermitted is_duplex s (close_read side) =
    (is_duplex side ≡ true) × ((copy_to (other side) s).is_over ≡ true)

abbrev pub ArePermitted : (Side → Bool) → Relaying → Type 0
ArePermitted is_duplex s = All (IsPermitted is_duplex s) s.half_closed

module _ (is_duplex : Side → Bool) where
  StaysOver : Relaying → Relaying → Type 0
  StaysOver s s' =
      (side : Side) → (copy_to side s).is_over ≡ true → (copy_to side s').is_over ≡ true

  step-StaysOver : (e : CopyEvent) (s : Relaying) → StaysOver s (relay_step is_duplex e s)
  unfolding StaysOver relay_step copy_to
  step-StaysOver (copies target b) s target h = ground arith
  step-StaysOver (copies device b) s device h = ground arith
  step-StaysOver (copies target b) s device h = h
  step-StaysOver (copies device b) s target h = h
  step-StaysOver (ends target) s target h = ground arith
  step-StaysOver (ends device) s device h = ground arith
  step-StaysOver (ends target) s device h = ground arith
  step-StaysOver (ends device) s target h = ground arith
  step-StaysOver handler_runs s target h = h
  step-StaysOver handler_runs s device h = h

  still-IsPermitted :
      (s s' : Relaying)
      → StaysOver s s'
      → (calls : List HalfClose) → All (IsPermitted is_duplex s) calls
      → All (IsPermitted is_duplex s') calls
  unfolding StaysOver
  still-IsPermitted s s' stays [] h = tt
  still-IsPermitted s s' stays (close_write side ∷ calls) h =
      ((h.0.0, stays side h.0.1), still-IsPermitted s s' stays calls h.1)
  still-IsPermitted s s' stays (close_read side ∷ calls) h =
      ((h.0.0, stays (other side) h.0.1), still-IsPermitted s s' stays calls h.1)

  half_close-All :
      (P : HalfClose → Type 0) (call : Side → HalfClose) (side : Side)
      → (is_duplex side ≡ true → P (call side))
      → All P (half_close is_duplex call side)
  unfolding half_close
  half_close-All P call side p = elim (Bool-cases (is_duplex side)) [
    | inl can ↦ rw can (p can, tt)
    | inr cannot ↦ rw cannot tt
  ]

  ends-ArePermitted :
      (s : Relaying) (dst src : Side) (calls : List HalfClose)
      → other src ≡ dst
      → (copy_to dst s).is_over ≡ true
      → All (IsPermitted is_duplex s) calls
      → All (IsPermitted is_duplex s) (calls ++ relay_tcp_ends is_duplex dst src)
  unfolding relay_tcp_ends
  ends-ArePermitted s dst src calls from over h = All-append (IsPermitted is_duplex s) calls _ h (
      All-append (IsPermitted is_duplex s) (half_close is_duplex close_write dst) _
        (half_close-All (IsPermitted is_duplex s) close_write dst (λ can. (can, over)))
        (half_close-All (IsPermitted is_duplex s) close_read src (λ can. (can, rw from over))))

  -- The copy from `src` to `dst` returns.
  end_step :
      (s s' : Relaying) (dst src : Side)
      → StaysOver s s'
      → other src ≡ dst
      → (copy_to dst s').is_over ≡ true
      → s'.half_closed ≡ s.half_closed ++ relay_tcp_ends is_duplex dst src
      → ArePermitted is_duplex s
      → ArePermitted is_duplex s'
  end_step s s' dst src stays from over same h = subst (All (IsPermitted is_duplex s')) (sym same) (
      ends-ArePermitted s' dst src s.half_closed from over
        (still-IsPermitted s s' stays s.half_closed h))

  pub step-ArePermitted :
      (e : CopyEvent) (s : Relaying)
      → ArePermitted is_duplex s
      → ArePermitted is_duplex (relay_step is_duplex e s)
  unfolding relay_step copy_to
  step-ArePermitted (copies target b) s h =
      still-IsPermitted s _ (step-StaysOver (copies target b) s) s.half_closed h
  step-ArePermitted (copies device b) s h =
      still-IsPermitted s _ (step-StaysOver (copies device b) s) s.half_closed h
  step-ArePermitted handler_runs s h =
      still-IsPermitted s _ (step-StaysOver handler_runs s) s.half_closed h
  step-ArePermitted (ends target) s h = elim (Bool-cases s.to_target.is_over) [
    | inl over ↦ subst (ArePermitted is_duplex) (sym (if_true s.to_target.is_over s _ over)) h
    | inr live ↦
        let now = if_false s.to_target.is_over s _ live in
        subst (ArePermitted is_duplex) (sym now) (
          end_step s _ target device (subst (StaysOver s) now (step-StaysOver (ends target) s)) refl
            refl refl h)
  ]
  step-ArePermitted (ends device) s h = elim (Bool-cases s.to_device.is_over) [
    | inl over ↦ subst (ArePermitted is_duplex) (sym (if_true s.to_device.is_over s _ over)) h
    | inr live ↦
        let now = if_false s.to_device.is_over s _ live in
        subst (ArePermitted is_duplex) (sym now) (
          end_step s _ device target (subst (StaysOver s) now (step-StaysOver (ends device) s)) refl
            refl refl h)
  ]

  pub relay-ArePermitted :
      (events : List CopyEvent) (s : Relaying)
      → ArePermitted is_duplex s
      → ArePermitted is_duplex (relay is_duplex events s)
  unfolding relay
  relay-ArePermitted [] s h = h
  relay-ArePermitted (e ∷ events) s h =
      relay-ArePermitted events _ (elim (Bool-cases s.has_closed) [
        | inl closed ↦ subst (ArePermitted is_duplex) (sym (if_true s.has_closed s _ closed)) h
        | inr open_still ↦
            subst (ArePermitted is_duplex) (sym (if_false s.has_closed s _ open_still))
              (step-ArePermitted e s h)
      ])
