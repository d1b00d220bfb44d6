-- ===== src/Tunnel/World.antt =====
-- common/tun/device.go, and what the program holds of the system: the descriptors of TUN devices that it
-- opened, as which are still open, and the network stacks, by their number in the order of creation.
use localdns_go.Prelude.{
  ℕ, Bool, true, false, Option, none, some, List, [], ◌∷◌, ◌++◌, length, set, Result, ok, err,
  if◌then◌else◌,
}
use localdns_go.Prelude.Ints.{ℤ, pos, negsuc}
use localdns_go.Prelude.Words.{Bytes}

-- A network stack: what was set up on its interfaces, each by the number of the interface.
pub record NetStack : Type 0 where
  pub nics : List (ℕ × ℕ)
  pub addresses : List (ℕ × Bytes × ℕ)
  pub default_routes : List ℕ
  pub spoofing : List ℕ
  pub promiscuous : List ℕ
  pub handles_tcp : Bool
  pub handles_udp : Bool
  pub is_closed : Bool

pub record World : Type 0 where
  pub files : List Bool
  pub stacks : List NetStack

-- The errors of the layers from the descriptor to the session; `E` are those of the calls that they make.
pub data Failure (E : Type 0) : Type 0 where
  invalid_fd : Failure E
  no_file : Failure E
  listener_required : Failure E
  not_a_file : Failure E
  dns_required : Failure E
  session_not_found : Failure E
  invalid_response : Failure E
  call_failed : E → Failure E

-- How `unix.Dup` ends, and whether `os.NewFile` gives a file for the new descriptor.
pub record TunCalls (E : Type 0) : Type 0 where
  pub dup : Option E
  pub wrapped : Bool

module _ {E : Type 0} where
  unfoldable pub duplicate : TunCalls E → World → Result (Failure E) ℕ × World
  duplicate v w = elim v.dup [
    | some e ↦ (err (call_failed e), w)
    | none ↦
        let w' = record w { files = w.files ++ true ∷ [] } in
        if v.wrapped then (ok (length w.files), w') else (err no_file, w')
  ]

  -- MakeTunDeviceFromFD; the new file is the last one.
  unfoldable pub make_tun_device_from_fd : ℤ → TunCalls E → World → Result (Failure E) ℕ × World
  unfolding duplicate
  make_tun_device_from_fd (negsuc n) v w = (err invalid_fd, w)
  make_tun_device_from_fd (pos n) v w = duplicate v w

-- `Close` of a file. A file that is closed already stays so.
unfoldable pub close_file : ℕ → World → World
close_file i w = record w { files = set w.files i false }
