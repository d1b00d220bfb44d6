-- ===== src/Tunnel/Device.antt =====
-- transport/stack/device.go. The calls on the gVisor stack are arguments, as the errors that they return.
pub mod Configured
use localdns_go.Prelude.{
  ℕ, Bool, true, false, Option, none, some, List, [], ◌∷◌, ◌++◌, length, modify, set, ◌≡◌, refl,
  Result, ok, err, ◌==◌, if◌then◌else◌,
}
use localdns_go.Prelude.Words.{Bytes}
use localdns_go.Tunnel.World.{NetStack, World, Failure, call_failed, close_file}

abbrev pub nic_id : ℕ
nic_id = 1

abbrev pub default_mtu : ℕ
default_mtu = 1500

abbrev pub vpn_client_ipv4 : Bytes
vpn_client_ipv4 = 10 ∷ 111 ∷ 222 ∷ 1 ∷ []

abbrev pub vpn_prefix_len : ℕ
vpn_prefix_len = 24

-- `stack.New`
abbrev pub new_stack : NetStack
new_stack = record {
  nics = [];
  addresses = [];
  default_routes = [];
  spoofing = [];
  promiscuous = [];
  handles_tcp = false;
  handles_udp = false;
  is_closed = false;
}

pub set_routes : NetStack → NetStack
set_routes s = record s { default_routes = nic_id ∷ [] }

-- How the calls that may fail end.
pub record DeviceCalls (E : Type 0) : Type 0 where
  pub fdbased : Option E
  pub create_nic : Option E
  pub add_address : Option E
  pub set_spoofing : Option E
  pub set_promiscuous : Option E

module _ {E : Type 0} where
  -- `if err := call; err != nil { return }`, and what follows without an error.
  pub unless_fails : Option E → NetStack → (NetStack → Option E × NetStack) → Option E × NetStack
  unless_fails (some e) s next = (some e, s)
  unless_fails none s next = next s

  -- NewDevice from `fdbased.New` on: the error, if any, and the stack.
  unfoldable pub configure : ℕ → DeviceCalls E → NetStack → Option E × NetStack
  unfolding unless_fails set_routes
  configure mtu v s = unless_fails v.fdbased s (λ s. unless_fails v.create_nic s (λ s.
      unless_fails v.add_address (record s { nics = s.nics ++ (nic_id, mtu) ∷ [] })
        (λ s.
          unless_fails v.set_spoofing
            (set_routes (record s {
              addresses = s.addresses ++ (nic_id, vpn_client_ipv4, vpn_prefix_len) ∷ [];
            }))
            (λ s.
              unless_fails v.set_promiscuous (record s { spoofing = nic_id ∷ s.spoofing })
                (λ s. (
                  none,
                  record s {
                    promiscuous = nic_id ∷ s.promiscuous;
                    handles_tcp = true;
                    handles_udp = true;
                  },
                ))))))

-- Device: its stack and its TUN file, until they are closed.
pub record Device : Type 0 where
  pub stack : Option ℕ
  pub tun : Option ℕ

pub mtu_or_default : ℕ → ℕ
mtu_or_default mtu = if mtu == 0 then default_mtu else mtu

module _ {E : Type 0} where
  pub finish_device : ℕ → World → Option E × NetStack → Result (Failure E) Device × World
  finish_device file w (some e, s) = (err (call_failed e), record w { stacks = w.stacks ++ s ∷ [] })
  finish_device file w (none, s) = (
    ok (record { stack = some (length w.stacks); tun = some file }),
    record w { stacks = w.stacks ++ s ∷ [] },
  )

  -- NewDevice
  unfoldable pub new_device : ℕ → ℕ → DeviceCalls E → World → Result (Failure E) Device × World
  unfolding finish_device mtu_or_default
  new_device file mtu v w = finish_device file w (configure (mtu_or_default mtu) v new_stack)

pub shut_stack : NetStack → NetStack
shut_stack s = record s { is_closed = true }

pub close_stack : Option ℕ → World → World
close_stack none w = w
close_stack (some k) w = record w { stacks = modify w.stacks k shut_stack }

pub close_tun : Option ℕ → World → World
close_tun none w = w
close_tun (some file) w = close_file file w

-- `Device.Close`
unfoldable pub close_device : Device → World → Device × World
unfolding close_stack close_tun shut_stack
close_device d w = (record { stack = none; tun = none }, close_tun d.tun (close_stack d.stack w))

pub files-close_device :
    (k : Option ℕ) (file : ℕ) (w : World)
    → (close_device (record { stack = k; tun = some file }) w).1.files ≡ set w.files file false
unfolding close_device close_tun close_stack close_file
files-close_device none file w = refl
files-close_device (some k) file w = refl
