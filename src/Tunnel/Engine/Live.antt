-- ===== src/Tunnel/Engine/Live.antt =====
-- What a running engine holds, from its start to its end.
use localdns_go.Prelude.{
  ℕ, Bool, Option, none, Option-cases, subst, true, false, ◌≡◌, refl, inl, inr, some, List, length,
  set, Result, ok, err, Result-cases,
}
use localdns_go.Relay.Outbound.{Outbound, new_outbound, set_dns}
use localdns_go.Relay.Udp.{UdpNat, new_udp_nat, set_nat_dns}
use localdns_go.Tunnel.World.{World, Failure}
use localdns_go.Tunnel.Device.{default_mtu, DeviceCalls, new_device, files-close_device}
use localdns_go.Tunnel.Device.Configured.{first_failure, DeviceOutcome, new_device_cases}
use localdns_go.Tunnel.Engine.{
  Engine, EngineCalls, tun_file, new_engine, with_fakedns, with_transports, with_device,
  set_engine_dns, disconnect_engine, drop_device,
}

-- An engine that runs on its file, with one resolver for both of its transports.
pub record IsLive {R : Type 0} (r : R) (file : ℕ) (e : Engine R) : Type 0 where
  pub running : e.cancelled ≡ false
  pub net : ℕ
  pub has_device : e.device ≡ some (record { stack = some net; tun = some file })
  pub has_tun : e.tun ≡ tun_file file
  pub tcp_dns : e.outbound.dns ≡ r
  pub udp_dns : e.udp_nat.dns ≡ r

module _ {R E : Type 0} where
  -- What a call yields that starts an engine on `file` in a world with the descriptors `before`, and
  -- leaves the descriptors `after` behind when it fails.
  abbrev pub Starts : R → ℕ → List Bool → List Bool → Result (Failure E) (Engine R) × World → Type 0
  Starts r file before after (ok e, w) = IsLive r file e × (w.files ≡ before)
  Starts r file before after (err f, w) = w.files ≡ after

  with_device-Starts :
      (r : R) (file : ℕ) (od : Outbound R) (nat : UdpNat R) (v : DeviceCalls E) (w : World)
      → od.dns ≡ r
      → nat.dns ≡ r
      → Starts r file w.files w.files
          (with_device (tun_file file) od nat (new_device file default_mtu v w))
  unfolding with_device
  with_device-Starts r file od nat v w hod hnat = elim (Option-cases (first_failure v)) [
    | inl fine ↦ rw (ended none fine) (
      record {
        running = refl;
        net = length w.stacks;
        has_device = refl;
        has_tun = refl;
        tcp_dns = hod;
        udp_dns = hnat;
      },
      refl,
    )
    | inr (e, failed) ↦ let (s, fails, _) = ended (some e) failed in rw fails refl
  ]
    where
      ended :
          (failure : Option E)
          → first_failure v ≡ failure
          → DeviceOutcome file default_mtu w failure (new_device file default_mtu v w)
      ended failure same =
          subst (λ x. DeviceOutcome file default_mtu w x (new_device file default_mtu v w)) same
            (new_device_cases file default_mtu v w)

  pub new_engine-Starts :
      (r : R) (file : ℕ) (has_listener : Bool) (v : EngineCalls E) (w : World)
      → Starts r file w.files w.files (new_engine (some r) (tun_file file) has_listener v w)
  unfolding new_engine with_fakedns with_transports new_outbound new_udp_nat
  new_engine-Starts r file false v w = refl
  new_engine-Starts r file true v w = elim (Result-cases v.fakedns) [
    | inr (e, fails) ↦ rw fails refl
    | inl (a, resolved) ↦ rw resolved (with_device-Starts r file _ _ v.device_calls w refl refl)
  ]

module _ {R : Type 0} (r : R) (file : ℕ) (e : Engine R) (live : IsLive r file e) where
  pub set_engine_dns-IsLive : (r' : R) → IsLive r' file (set_engine_dns (some r') e)
  unfolding set_engine_dns set_dns set_nat_dns
  set_engine_dns-IsLive r' = record {
    running = live.running;
    net = live.net;
    has_device = live.has_device;
    has_tun = live.has_tun;
    tcp_dns = refl;
    udp_dns = refl;
  }

  -- The end of a session closes its descriptor.
  pub files-disconnect_engine :
      (w : World) → (disconnect_engine e w).1.files ≡ set w.files file false
  unfolding disconnect_engine drop_device
  files-disconnect_engine w = rw live.has_device (files-close_device (some live.net) file w)
