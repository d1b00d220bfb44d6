-- ===== src/Tunnel/Device/Configured.antt =====
-- What NewDevice sets up, and what it leaves behind.
use localdns_go.Prelude.{
  ℕ, true, false, ◌≡◌, refl, inl, inr, Option, none, some, List, [], ◌∷◌, ◌++◌, length,
  Option-cases, ok, Result, err, ◌==◌, if◌then◌else◌,
}
use localdns_go.Tunnel.World.{NetStack, World, Failure, call_failed}
use localdns_go.Tunnel.Device.{
  nic_id, default_mtu, vpn_client_ipv4, vpn_prefix_len, new_stack, set_routes, DeviceCalls, Device,
  unless_fails, configure, mtu_or_default, finish_device, new_device,
}

-- A stack with one interface, which takes the packets of every address, and both handlers.
abbrev pub ready_stack : ℕ → NetStack
ready_stack mtu = record {
  nics = (nic_id, mtu) ∷ [];
  addresses = (nic_id, vpn_client_ipv4, vpn_prefix_len) ∷ [];
  default_routes = nic_id ∷ [];
  spoofing = nic_id ∷ [];
  promiscuous = nic_id ∷ [];
  handles_tcp = true;
  handles_udp = true;
  is_closed = false;
}

-- The first error in the order of the calls.
first_of : {E : Type 0} → List (Option E) → Option E
first_of [] = none
first_of (some e ∷ later) = some e
first_of (none ∷ later) = first_of later

unfoldable pub first_failure : {E : Type 0} → DeviceCalls E → Option E
unfolding first_of
first_failure v =
    first_of (v.fdbased ∷ v.create_nic ∷ v.add_address ∷ v.set_spoofing ∷ v.set_promiscuous ∷ [])

-- A stack that was left behind: it is running, and hands no packets to the handlers.
pub record IsLeft (s : NetStack) : Type 0 where
  pub running : s.is_closed ≡ false
  pub no_tcp : s.handles_tcp ≡ false
  pub no_udp : s.handles_udp ≡ false

-- What one failure, or none, makes of a set-up.
Outcome : {E : Type 0} → ℕ → Option E × NetStack → Option E → Type 0
Outcome mtu (failure, s) none = (failure ≡ none) × (s ≡ ready_stack mtu)
Outcome mtu (failure, s) (some e) = (failure ≡ some e) × IsLeft s

module _ {E : Type 0} where
  configure_outcome :
      (mtu : ℕ) (v : DeviceCalls E) → Outcome mtu (configure mtu v new_stack) (first_failure v)
  unfolding configure unless_fails set_routes Outcome first_failure
  configure_outcome mtu v = elim (Option-cases v.fdbased) [
    | inr (e, a) ↦ rw a (refl, record { running = refl; no_tcp = refl; no_udp = refl })
    | inl a ↦ elim (Option-cases v.create_nic) [
      | inr (e, b) ↦ rw (a, b) (refl, record { running = refl; no_tcp = refl; no_udp = refl })
      | inl b ↦ elim (Option-cases v.add_address) [
        | inr (e, c) ↦ rw (a, b, c) (refl, record { running = refl; no_tcp = refl; no_udp = refl })
        | inl c ↦ elim (Option-cases v.set_spoofing) [
          | inr (e, d) ↦
              rw (a, b, c, d) (refl, record { running = refl; no_tcp = refl; no_udp = refl })
          | inl d ↦ elim (Option-cases v.set_promiscuous) [
            | inr (e, f) ↦
                rw (a, b, c, d, f) (refl, record { running = refl; no_tcp = refl; no_udp = refl })
            | inl f ↦ rw (a, b, c, d, f) (refl, refl)
          ]
        ]
      ]
    ]
  ]

  -- What NewDevice does when `failure` is the first error, if any.
  abbrev pub DeviceOutcome : ℕ → ℕ → World → Option E → Result (Failure E) Device × World → Type 0
  DeviceOutcome file mtu w none result = result ≡ (
    ok (record { stack = some (length w.stacks); tun = some file }),
    record w { stacks = w.stacks ++ ready_stack (if mtu == 0 then default_mtu else mtu) ∷ [] },
  )
  DeviceOutcome file mtu w (some e) result =
      (s : NetStack) × (result ≡ (err (call_failed e), record w { stacks = w.stacks ++ s ∷ [] }))
      × IsLeft s

  finish_device-DeviceOutcome :
      (file mtu : ℕ) (w : World) (x : Option E × NetStack) (failure : Option E)
      → Outcome (mtu_or_default mtu) x failure
      → DeviceOutcome file mtu w failure (finish_device file w x)
  unfolding finish_device mtu_or_default Outcome
  finish_device-DeviceOutcome file mtu w (failed, s) none (fine, ready) = rw (fine, ready) refl
  finish_device-DeviceOutcome file mtu w (failed, s) (some e) (same, left) = (s, rw same refl, left)

  -- NewDevice adds one running stack. If all five calls succeed, it returns a device on it, and the stack
  -- is complete: one interface with the MTU (1500 for 0), its address and route, spoofing, promiscuous mode
  -- and both handlers. If a call fails, it returns the error of the first call that failed, with neither
  -- handler on the stack, which is not closed, though nothing holds it.
  pub new_device_cases :
      (file mtu : ℕ) (v : DeviceCalls E) (w : World)
      → DeviceOutcome file mtu w (first_failure v) (new_device file mtu v w)
  unfolding new_device finish_device mtu_or_default
  new_device_cases file mtu v w =
      finish_device-DeviceOutcome file mtu w (configure (mtu_or_default mtu) v new_stack)
        (first_failure v) (configure_outcome (mtu_or_default mtu) v)
