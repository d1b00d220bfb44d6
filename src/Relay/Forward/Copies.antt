-- ===== src/Relay/Forward/Copies.antt =====
-- What the two copies of a forwarded connection hand on.
use localdns_go.Prelude.{
  ◌≡◌, refl, sym, ap, ◌∙◌, subst, if◌then◌else◌, ◌||◌, inl, inr, Bool, true, false, List, [], ◌∷◌,
  ◌++◌, All, Bool-cases, append-nil, append_assoc, arith,
}
use localdns_go.Prelude.Words.{Bytes}
use localdns_go.Relay.Forward.{
  Side, device, target, CopyEvent, copies, ends, handler_runs, Copy, hand_on, Relaying, relay_step,
  relay,
}

-- What the copy to a side hands on in a run: its bytes until it returns.
abbrev pub live : Side → List CopyEvent → Bytes
live side [] = []
live target (copies target b ∷ events) = b ++ live target events
live target (ends target ∷ events) = []
live device (copies device b ∷ events) = b ++ live device events
live device (ends device ∷ events) = []
live target (_ ∷ events) = live target events
live device (_ ∷ events) = live device events

abbrev pub IsOfCopy : CopyEvent → Type 0
IsOfCopy handler_runs = ⊥
IsOfCopy _ = Unit

-- One of the copies returns.
abbrev pub HasEnd : List CopyEvent → Type 0
HasEnd [] = ⊥
HasEnd (ends side ∷ events) = Unit
HasEnd (_ ∷ events) = HasEnd events

pub if_true : {A : Type 0} (b : Bool) (x y : A) → b ≡ true → (if b then x else y) ≡ x
if_true true x y h = refl
if_true false x y h = cc

pub if_false : {A : Type 0} (b : Bool) (x y : A) → b ≡ false → (if b then x else y) ≡ y
if_false false x y h = refl
if_false true x y h = cc

unfoldable pub copy_to : Side → Relaying → Copy
copy_to target s = s.to_target
copy_to device s = s.to_device

unfoldable pub IsOver : Relaying → Type 0
IsOver s = (s.to_target.is_over || s.to_device.is_over) ≡ true

unfoldable pub handed_by : Copy → Bytes → Bytes
handed_by c b = c.handed ++ (if c.is_over then [] else b)

hand_on-handed_by :
    (b more : Bytes) (c : Copy) → handed_by (hand_on b c) more ≡ handed_by c (b ++ more)
unfolding handed_by
hand_on-handed_by b more c = elim (Bool-cases c.is_over) [
  | inl over ↦ rw over refl
  | inr more_left ↦ rw more_left (append_assoc c.handed b more)
]

module _ (is_duplex : Side → Bool) where
  pub relay-append :
      (before after : List CopyEvent) (s : Relaying)
      → relay is_duplex (before ++ after) s ≡ relay is_duplex after (relay is_duplex before s)
  unfolding relay
  relay-append [] after s = refl
  relay-append (e ∷ before) after s =
      relay-append before after (if s.has_closed then s else relay_step is_duplex e s)

  pub relay_closed :
      (events : List CopyEvent) (s : Relaying) → s.has_closed ≡ true → relay is_duplex events s ≡ s
  unfolding relay
  relay_closed [] s closed = refl
  relay_closed (e ∷ events) s closed =
      ap (relay is_duplex events) (if_true s.has_closed s _ closed) ∙ relay_closed events s closed

  -- A step of a copy: what it hands on, whether it ends, and that the handler does not run.
  step_hands :
      (side : Side) (e : CopyEvent) (events : List CopyEvent) (s : Relaying)
      → IsOfCopy e
      → handed_by (copy_to side (relay_step is_duplex e s)) (live side events)
        ≡ handed_by (copy_to side s) (live side (e ∷ events))
  unfolding relay_step copy_to handed_by
  step_hands target (copies target b) events s c =
      hand_on-handed_by b (live target events) s.to_target
  step_hands target (copies device b) events s c = refl
  step_hands device (copies target b) events s c = refl
  step_hands device (copies device b) events s c =
      hand_on-handed_by b (live device events) s.to_device
  step_hands target (ends target) events s c = ground arith
  step_hands target (ends device) events s c = ground arith
  step_hands device (ends target) events s c = ground arith
  step_hands device (ends device) events s c = ground arith
  step_hands target handler_runs events s c = absurd c
  step_hands device handler_runs events s c = absurd c

  step_open :
      (e : CopyEvent) (s : Relaying)
      → IsOfCopy e
      → s.has_closed ≡ false
      → (relay_step is_duplex e s).has_closed ≡ false
  unfolding relay_step
  step_open (copies target b) s c h = h
  step_open (copies device b) s c h = h
  step_open (ends target) s c h = ground arith
  step_open (ends device) s c h = ground arith
  step_open handler_runs s c h = absurd c

  step-IsOver : (e : CopyEvent) (s : Relaying) → IsOver s → IsOver (relay_step is_duplex e s)
  unfolding relay_step IsOver
  step-IsOver (copies target b) s h = ground arith
  step-IsOver (copies device b) s h = ground arith
  step-IsOver (ends target) s h = ground arith
  step-IsOver (ends device) s h = ground arith
  step-IsOver handler_runs s h = h

  pub step_opens :
      (e : CopyEvent) (events : List CopyEvent) (s : Relaying)
      → s.has_closed ≡ false
      → relay is_duplex (e ∷ events) s ≡ relay is_duplex events (relay_step is_duplex e s)
  unfolding relay
  step_opens e events s h = ap (relay is_duplex events) (if_false s.has_closed s _ h)

  -- A run of the copies alone.
  pub record Ran (events : List CopyEvent) (s s' : Relaying) : Type 0 where
    pub still_open : s'.has_closed ≡ false
    pub hands :
        (side : Side) → (copy_to side s').handed ≡ handed_by (copy_to side s) (live side events)
    pub keeps_over : IsOver s → IsOver s'
    pub is_over : HasEnd events → IsOver s'

  ends-IsOver : (side : Side) (s : Relaying) → IsOver (relay_step is_duplex (ends side) s)
  unfolding relay_step IsOver
  ends-IsOver target s = ground arith
  ends-IsOver device s = ground arith

  after_step :
      (e : CopyEvent) (events : List CopyEvent) (s s' : Relaying)
      → IsOfCopy e
      → Ran events (relay_step is_duplex e s) s'
      → HasEnd (e ∷ events)
      → IsOver s'
  after_step (ends side) events s s' c x h = x.keeps_over (ends-IsOver side s)
  after_step (copies target b) events s s' c x h = x.is_over h
  after_step (copies device b) events s s' c x h = x.is_over h
  after_step handler_runs events s s' c x h = absurd c

  pub relay-Ran :
      (events : List CopyEvent) (s : Relaying)
      → All IsOfCopy events
      → s.has_closed ≡ false
      → Ran events s (relay is_duplex events s)
  unfolding relay handed_by
  relay-Ran [] s c h = record {
    still_open = h;
    hands = λ side. ground (arith, append-nil (copy_to side s).handed);
    keeps_over = λ over. over;
    is_over = λ end. absurd end;
  }
  relay-Ran (e ∷ events) s c h =
      let x = relay-Ran events (relay_step is_duplex e s) c.1 (step_open e s c.0 h) in
      subst (Ran (e ∷ events) s) (sym (step_opens e events s h)) (record {
        still_open = x.still_open;
        hands = λ side. x.hands side ∙ step_hands side e events s c.0;
        keeps_over = λ over. x.keeps_over (step-IsOver e s over);
        is_over = after_step e events s _ c.0 x;
      })
