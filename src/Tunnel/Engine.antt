-- ===== src/Tunnel/Engine.antt =====
-- core/engine.go. `R` stands for the resolvers, `none` for a nil one; the protector is left out, as it
-- is only handed on. How net.ResolveUDPAddr ends is an argument.
pub mod Live
use localdns_go.Prelude.{ℕ, Bool, true, false, Option, none, some, Result, ok, err, if◌then◌else◌}
use localdns_go.Relay.Addr.{AddrPort}
use localdns_go.Relay.Outbound.{Outbound, new_outbound, set_dns}
use localdns_go.Relay.Udp.{UdpNat, new_udp_nat, set_nat_dns}
use localdns_go.Tunnel.World.{
  World, Failure, listener_required, not_a_file, dns_required, call_failed, close_file,
}
use localdns_go.Tunnel.Device.{default_mtu, DeviceCalls, Device, new_device, close_device}

-- `io.Closer`: a file, or something else.
pub data Closer : Type 0 where
  tun_file : ℕ → Closer
  other_closer : Closer

pub record Engine (R : Type 0) : Type 0 where
  pub cancelled : Bool
  pub device : Option Device
  pub outbound : Outbound R
  pub udp_nat : UdpNat R
  pub tun : Closer

pub record EngineCalls (E : Type 0) : Type 0 where
  pub fakedns : Result E AddrPort
  pub device_calls : DeviceCalls E

module _ {R E : Type 0} where
  pub with_device :
      Closer
      → Outbound R
      → UdpNat R
      → Result (Failure E) Device × World
      → Result (Failure E) (Engine R) × World
  with_device tun od nat (err e, w) = (err e, w)
  with_device tun od nat (ok d, w) = (
    ok (record { cancelled = false; device = some d; outbound = od; udp_nat = nat; tun = tun }),
    w,
  )

  pub with_transports :
      ℕ
      → DeviceCalls E
      → World
      → Option (Outbound R)
      → Option (UdpNat R)
      → Result (Failure E) (Engine R) × World
  with_transports file v w none nat = (err dns_required, w)
  with_transports file v w (some od) none = (err dns_required, w)
  with_transports file v w (some od) (some nat) =
      with_device (tun_file file) od nat (new_device file default_mtu v w)

  pub with_fakedns :
      Option R
      → Closer
      → DeviceCalls E
      → World
      → Result E AddrPort
      → Result (Failure E) (Engine R) × World
  with_fakedns dns tun v w (err e) = (err (call_failed e), w)
  with_fakedns dns other_closer v w (ok addr) = (err not_a_file, w)
  with_fakedns dns (tun_file file) v w (ok addr) =
      with_transports file v w (new_outbound addr dns true) (new_udp_nat addr dns)

  -- NewEngine
  unfoldable pub new_engine :
      Option R → Closer → Bool → EngineCalls E → World → Result (Failure E) (Engine R) × World
  unfolding with_device with_transports with_fakedns new_outbound new_udp_nat
  new_engine dns tun has_listener v w =
      if has_listener
      then with_fakedns dns tun v.device_calls w v.fakedns
      else (err listener_required, w)

pub close_closer : Closer → World → World
close_closer other_closer w = w
close_closer (tun_file file) w = close_file file w

module _ {R : Type 0} where
  -- SetDNS
  unfoldable pub set_engine_dns : Option R → Engine R → Engine R
  set_engine_dns dns e = record e {
    outbound = set_dns dns e.outbound;
    udp_nat = set_nat_dns dns e.udp_nat;
  }

  pub drop_device : Engine R → Option Device → World → Engine R × World
  drop_device e none w = (e, close_closer e.tun w)
  drop_device e (some d) w = (record e { device = none }, (close_device d w).1)

  -- Disconnect; `close_closer` is what a second call does.
  unfoldable pub disconnect_engine : Engine R → World → Engine R × World
  unfolding drop_device close_closer
  disconnect_engine e w = drop_device (record e { cancelled = true }) e.device w
