-- ===== src/Relay/Udp.antt =====
-- transport/udp_nat.go and transport/udp_tracker.go. The calls on the endpoints of the network stack and
-- on sockets are arguments.
pub mod Datagrams
pub mod Counted
use localdns_go.Prelude.{
  ℕ, ◌+◌, ◌-◌, ◌%◌, ◌^◌, Bool, true, false, ◌||◌, ◌&&◌, not, Option, none, some, List, [], ◌∷◌,
  ◌++◌, length, take, ltb, ◌==◌, if◌then◌else◌, Result, ok, err,
}
use localdns_go.Prelude.Words.{Bytes}
use localdns_go.Doh.Accept.{ReadEnd}
use localdns_go.Doh.Service.{Answer, Service}
use localdns_go.Relay.Addr.{AddrPort, is_equivalent_addr_port, addr_port_from_tcpip}

-- The fields of `UdpNat` that the handlers read; `R` stands for the resolvers.
pub record UdpNat (R : Type 0) : Type 0 where
  pub fake_dns_addr : AddrPort
  pub dns : R

-- NewUdpNat and SetDNS: a nil resolver is refused. The error of SetDNS, which its caller drops, is left
-- out.
unfoldable pub new_udp_nat : {R : Type 0} → AddrPort → Option R → Option (UdpNat R)
new_udp_nat fake_dns none = none
new_udp_nat fake_dns (some dns) = some (record { fake_dns_addr = fake_dns; dns = dns })

unfoldable pub set_nat_dns : {R : Type 0} → Option R → UdpNat R → UdpNat R
set_nat_dns none nat = nat
set_nat_dns (some dns) nat = record nat { dns = dns }

-- What `HandleForwarder` starts.
pub data Handling : Type 0 where
  not_handled : Handling
  handles_dns : Handling
  relays_to : AddrPort → Handling

unfoldable pub handle_forwarder : {R : Type 0} → Bytes → ℕ → UdpNat R → Handling
handle_forwarder local port nat = elim (addr_port_from_tcpip local port) [
  | none ↦ not_handled
  | some dest ↦
      if is_equivalent_addr_port dest nat.fake_dns_addr then handles_dns else relays_to dest
]

pub nonempty : Option Bytes → Option Bytes
nonempty none = none
nonempty (some []) = none
nonempty (some (b ∷ bs)) = some (b ∷ bs)

pub to_write : {E : Type 0} → Option Bytes → Option E → Option Bytes
to_write response (some e) = none
to_write response none = nonempty response

module _ {S V E : Type 0} (s : Service S V E) where
  -- Behind a read without an error: the query, and its answer if that is to be written.
  pub ask : V → Bytes → S → Option (Option Bytes × S)
  ask v q st = elim (s.query v q st) [
    | none ↦ none
    | some (a, st') ↦ some (to_write a.response a.error, st')
  ]

module _ {S V E F : Type 0} (s : Service S V E) where
  pub asked : V → ReadEnd F → S → Option F → Option (Option Bytes × S)
  asked v r st (some e) = some (none, st)
  asked v r st none = if length r.chunk == 0 then some (none, st) else ask s v r.chunk st

  -- `handleDNS`: the datagram that is written, if any. `created` says that there is an endpoint.
  unfoldable pub handle_dns : Bool → ReadEnd F → V → S → Option (Option Bytes × S)
  unfolding asked ask to_write nonempty
  handle_dns created r v st = if created then asked v r st r.error else some (none, st)

-- One `copyUDPCount`: its counter, the datagrams that it has handed to `dst.Write`, and whether it has
-- returned.
pub record Copier : Type 0 where
  pub counter : ℕ
  pub handed : List Bytes
  pub finished : Bool

abbrev pub new_copier : Copier
new_copier = record { counter = 0; handed = []; finished = false }

pub is_error : {E : Type 0} → Option E → Bool
is_error none = false
is_error (some e) = true

-- A round of its loop: what the read delivers, and whether the write that follows works. The counter is
-- raised just before the write; both are one step here.
unfoldable pub copy_round : {E : Type 0} → ReadEnd E → Bool → Copier → Copier
unfolding is_error
copy_round r written c =
    if c.finished
    then c
    else if length r.chunk == 0
    then record c { finished = is_error r.error }
    else record c {
      counter = c.counter + length r.chunk;
      handed = c.handed ++ r.chunk ∷ [];
      finished = not written || is_error r.error;
    }

-- The two loops of a relay, and whose round is next.
pub record Copies : Type 0 where
  pub down : Copier
  pub up : Copier

pub data Turn (E : Type 0) : Type 0 where
  goes_down : ReadEnd E → Bool → Turn E
  goes_up : ReadEnd E → Bool → Turn E

unfoldable pub take_turn : {E : Type 0} → Turn E → Copies → Copies
take_turn (goes_down r w) c = record c { down = copy_round r w c.down }
take_turn (goes_up r w) c = record c { up = copy_round r w c.up }

unfoldable pub take_turns : {E : Type 0} → List (Turn E) → Copies → Copies
take_turns [] c = c
take_turns (t ∷ ts) c = take_turns ts (take_turn t c)

-- UDPSocketSummary
pub record UdpSummary : Type 0 where
  pub duration : ℕ
  pub upload_bytes : ℕ
  pub download_bytes : ℕ

pub summary : ℕ → ℕ → Copies → UdpSummary
summary start now c = record {
  duration = (now - start) % 2 ^ 32;
  upload_bytes = c.up.counter;
  download_bytes = c.down.counter;
}

unfoldable pub no_copies : Copies
no_copies = record { down = new_copier; up = new_copier }

pub relayed : {E : Type 0} → ℕ → ℕ → List (Turn E) → Option UdpSummary
relayed start now turns =
    let c = take_turns turns no_copies in
    if c.down.finished || c.up.finished then some (summary start now c) else none

-- `relay`: the summary for the listener, if it has ended. It ends once one of the loops has returned;
-- the other one may go on until then, and the turns are those until the report.
unfoldable pub relay_udp :
    {E : Type 0} → Bytes → ℕ → Bool → Bool → ℕ → ℕ → List (Turn E) → Option UdpSummary
unfolding relayed summary no_copies take_turns
relay_udp local port created dialed start now turns = elim (addr_port_from_tcpip local port) [
  | none ↦ some (summary start now no_copies)
  | some dest ↦
      if created && dialed then relayed start now turns else some (summary start now no_copies)
]
