-- ===== src/Relay/Forward.antt =====
-- transport/stack/tcp_forwarder.go. How the calls on the gVisor stack and the dial end, and what the two
-- copies do in which order, are arguments.
mod Copies
pub mod HalfCloses
pub mod Cut
use localdns_go.Prelude.{
  ℕ, Bool, true, false, not, Option, none, some, List, [], ◌∷◌, ◌++◌, ◌||◌, if◌then◌else◌,
}
use localdns_go.Prelude.Words.{Bytes}
use localdns_go.Relay.Addr.{AddrPort, addr_port_from_tcpip}

-- The two connections of a flow, and the half-closes of one.
pub data Side : Type 0 where
  device target : Side

pub data HalfClose : Type 0 where
  close_write close_read : Side → HalfClose

-- A step of one of the three goroutines: the copy to a side hands bytes on or returns, and then signals
-- `done`; or the handler runs, which goes on if `done` was signalled.
pub data CopyEvent : Type 0 where
  copies : Side → Bytes → CopyEvent
  ends : Side → CopyEvent
  handler_runs : CopyEvent

pub half_close : (Side → Bool) → (Side → HalfClose) → Side → List HalfClose
half_close is_duplex call side = if is_duplex side then call side ∷ [] else []

-- relayTCP behind its copy: the half-closes before it signals `done`.
unfoldable pub relay_tcp_ends : (Side → Bool) → Side → Side → List HalfClose
unfolding half_close
relay_tcp_ends is_duplex dst src =
    half_close is_duplex close_write dst ++ half_close is_duplex close_read src

-- The copy to one side: what it has handed on, and whether it has returned.
pub record Copy : Type 0 where
  pub handed : Bytes
  pub is_over : Bool

abbrev pub new_copy : Copy
new_copy = record { handed = []; is_over = false }

abbrev pub hand_on : Bytes → Copy → Copy
hand_on b c = if c.is_over then c else record c { handed = c.handed ++ b }

-- The two copies, the half-closes in their order, and whether the handler has gone on, to its deferred
-- closes of both connections.
pub record Relaying : Type 0 where
  pub to_target : Copy
  pub to_device : Copy
  pub half_closed : List HalfClose
  pub has_closed : Bool

abbrev pub new_relaying : Relaying
new_relaying = record {
  to_target = new_copy;
  to_device = new_copy;
  half_closed = [];
  has_closed = false;
}

-- A copy that has returned makes no further steps.
unfoldable pub relay_step : (Side → Bool) → CopyEvent → Relaying → Relaying
relay_step is_duplex (copies target b) s = record s { to_target = hand_on b s.to_target }
relay_step is_duplex (copies device b) s = record s { to_device = hand_on b s.to_device }
relay_step is_duplex (ends target) s = if s.to_target.is_over then s else record s {
  to_target = record (s.to_target) { is_over = true };
  half_closed = s.half_closed ++ relay_tcp_ends is_duplex target device;
}
relay_step is_duplex (ends device) s = if s.to_device.is_over then s else record s {
  to_device = record (s.to_device) { is_over = true };
  half_closed = s.half_closed ++ relay_tcp_ends is_duplex device target;
}
relay_step is_duplex handler_runs s = record s {
  has_closed = s.to_target.is_over || s.to_device.is_over;
}

-- Behind the closes nothing is handed on.
unfoldable pub relay : (Side → Bool) → List CopyEvent → Relaying → Relaying
relay is_duplex [] s = s
relay is_duplex (e ∷ events) s =
    relay is_duplex events (if s.has_closed then s else relay_step is_duplex e s)

-- `<-done`, and the deferred closes behind it: `none` while the handler waits. `is_duplex` tells which of
-- the connections is a split.DuplexConn.
unfoldable pub until_done : (Side → Bool) → List CopyEvent → Option Relaying
until_done is_duplex events =
    let s = relay is_duplex events new_relaying in if s.has_closed then some s else none

-- The calls that handleTCPForwarder has made when it returns.
pub record Handled : Type 0 where
  pub created_endpoint : Bool
  pub completed : Bool
  pub closed_stack : Bool
  pub dialed : Option AddrPort
  pub closed_out : Bool
  pub relayed : Option Relaying

abbrev pub nothing_done : Handled
nothing_done = record {
  created_endpoint = false;
  completed = false;
  closed_stack = false;
  dialed = none;
  closed_out = false;
  relayed = none;
}

pub relayed_until : AddrPort → Option Relaying → Option Handled
relayed_until dest none = none
relayed_until dest (some h) = some (record {
  created_endpoint = true;
  completed = true;
  closed_stack = true;
  dialed = some dest;
  closed_out = true;
  relayed = some h;
})

pub with_endpoint : (Side → Bool) → AddrPort → Bool → List CopyEvent → Option Handled
with_endpoint is_duplex dest dial_works events =
    if dial_works
    then relayed_until dest (until_done is_duplex events)
    else some (record nothing_done {
      created_endpoint = true;
      completed = true;
      closed_stack = true;
      dialed = some dest;
    })

-- handleTCPForwarder; `none` while it runs.
unfoldable pub handle_tcp :
    (Side → Bool) → Bytes → ℕ → Bool → Bool → List CopyEvent → Option Handled
unfolding with_endpoint relayed_until
handle_tcp is_duplex local port endpoint_works dial_works events =
    elim (addr_port_from_tcpip local port) [
      | none ↦ some nothing_done
      | some dest ↦
          if endpoint_works
          then with_endpoint is_duplex dest dial_works events
          else some nothing_done
    ]
