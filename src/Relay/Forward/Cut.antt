-- ===== src/Relay/Forward/Cut.antt =====
-- What a forwarded TCP connection passes on, and what it leaves open.
use localdns_go.Prelude.{
  ℕ, ◌≡◌, refl, ap, ◌∙◌, subst, if◌then◌else◌, ◌⊎◌, inl, inr, Bool, true, false, none, some, List,
  ◌∷◌, ◌++◌, All, some_eq, Option-cases,
}
use localdns_go.Prelude.Words.{Bytes}
use localdns_go.Relay.Addr.{AddrPort, addr_port_from_tcpip}
use localdns_go.Relay.Forward.{
  Side, device, target, CopyEvent, handler_runs, Relaying, new_relaying, relay_step, relay,
  until_done, Handled, nothing_done, relayed_until, with_endpoint, handle_tcp,
}
use localdns_go.Relay.Forward.Copies.{
  live, IsOfCopy, HasEnd, if_true, copy_to, IsOver, handed_by, relay-append, relay_closed,
  step_opens, relay-Ran,
}
use localdns_go.Relay.Forward.HalfCloses.{ArePermitted, relay-ArePermitted, step-ArePermitted}

module _ (is_duplex : Side → Bool) where
  until_done-cut :
      (before after : List CopyEvent)
      → All IsOfCopy before
      → HasEnd before
      → (s : Relaying) × (until_done is_duplex (before ++ handler_runs ∷ after) ≡ some s)
        × (s.to_target.handed ≡ live target before)
        × (s.to_device.handed ≡ live device before)
        × ArePermitted is_duplex s
  unfolding until_done relay relay_step IsOver copy_to handed_by
  until_done-cut before after c h =
      let s = relay is_duplex before new_relaying in
      let x = relay-Ran is_duplex before new_relaying c refl in
      let closed = relay_step is_duplex handler_runs s in
      let same : relay is_duplex (before ++ handler_runs ∷ after) new_relaying ≡ closed =
        relay-append is_duplex before (handler_runs ∷ after) new_relaying
        ∙ step_opens is_duplex handler_runs after s x.still_open
        ∙ relay_closed is_duplex after closed (x.is_over h) in
      (
        closed,
        ap (λ (z : Relaying). if z.has_closed then some z else none) same
            ∙ if_true closed.has_closed (some closed) none (x.is_over h),
        x.hands target,
        x.hands device,
        step-ArePermitted is_duplex handler_runs s
            (relay-ArePermitted is_duplex before new_relaying tt),
      )

abbrev pub LeavesNothingOpen : Bool → Handled → Type 0
LeavesNothingOpen dial_works h =
    (h.closed_stack ≡ h.created_endpoint)
    × (h.completed ≡ h.created_endpoint)
    × ((h.dialed ≡ none) ⊎ (h.closed_out ≡ dial_works))

leaves_nothing :
    (dial_works : Bool) (x h : Handled)
    → LeavesNothingOpen dial_works x
    → some x ≡ some h
    → LeavesNothingOpen dial_works h
leaves_nothing dial_works x h closed e = subst (LeavesNothingOpen dial_works) (some_eq e) closed

-- When handleTCPForwarder returns, each connection that it had is closed: the one to the device if an
-- endpoint was made, the one to the target if the dial worked. The request is completed exactly when an
-- endpoint was made.
pub handle_tcp-closes :
    (is_duplex : Side → Bool) (local : Bytes) (port : ℕ) (endpoint_works dial_works : Bool)
    (events : List CopyEvent) (h : Handled)
    → handle_tcp is_duplex local port endpoint_works dial_works events ≡ some h
    → LeavesNothingOpen dial_works h
unfolding handle_tcp with_endpoint relayed_until
handle_tcp-closes is_duplex local port endpoint_works dial_works events h run =
    elim (Option-cases (addr_port_from_tcpip local port)) [
      | inl invalid ↦
          leaves_nothing dial_works _ h (refl, refl, inl refl) (rw (invalid, handle_tcp) at run)
      | inr (dest, valid) ↦ made endpoint_works dial_works dest (rw (valid, handle_tcp) at run)
    ]
  where
    made :
        (endpoint_works dial_works : Bool) (dest : AddrPort)
        → (if endpoint_works
            then with_endpoint is_duplex dest dial_works events
            else some nothing_done)
          ≡ some h
        → LeavesNothingOpen dial_works h
    made false dial_works dest e = leaves_nothing dial_works _ h (refl, refl, inl refl) e
    made true false dest e = leaves_nothing false _ h (refl, refl, inr refl) e
    made true true dest e = elim (Option-cases (until_done is_duplex events)) [
      | inl runs ↦ cc (rw runs at e)
      | inr (x, ended) ↦ leaves_nothing true _ h (refl, refl, inr refl) (rw ended at e)
    ]

-- For a valid destination, when the endpoint is made and the dial works, and for any run of the two copies
-- in which one of them returns: when the handler runs, it ends, with what
-- each copy has handed on before it returned or the handler ran, whatever the copies would do `after` that,
-- also when only one direction of the connection was at its end. It has then closed both connections.
-- Until then a connection has been half-closed only if it can be: for writing behind the end of the copy to
-- it, and for reading behind the end of the copy from it.
pub handle_tcp-cut :
    (is_duplex : Side → Bool) (local : Bytes) (port : ℕ) (dest : AddrPort)
    (before after : List CopyEvent)
    → addr_port_from_tcpip local port ≡ some dest
    → All IsOfCopy before
    → HasEnd before
    → (h : Handled) × (s : Relaying) × (handle_tcp is_duplex local port true true
          (before ++ handler_runs ∷ after)
        ≡ some h)
      × LeavesNothingOpen true h
      × (h.relayed ≡ some s)
      × (s.to_target.handed ≡ live target before)
      × (s.to_device.handed ≡ live device before)
      × ArePermitted is_duplex s
unfolding handle_tcp with_endpoint relayed_until
handle_tcp-cut is_duplex local port dest before after valid c ended =
    let (s, done, up, down, permitted) = until_done-cut is_duplex before after c ended in
    let h : Handled = record {
      created_endpoint = true;
      completed = true;
      closed_stack = true;
      dialed = some dest;
      closed_out = true;
      relayed = some s;
    } in
    let run : handle_tcp is_duplex local port true true (before ++ handler_runs ∷ after) ≡ some h =
      rw (valid, handle_tcp) (ap (relayed_until dest) done) in
    (
      h,
      s,
      run,
      handle_tcp-closes is_duplex local port true true (before ++ handler_runs ∷ after) h run,
      refl,
      up,
      down,
      permitted,
    )
