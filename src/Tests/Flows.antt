-- ===== src/Tests/Flows.antt =====
-- Runs of the relay of flows, and of the choice of a system resolver and of a client certificate.
use Prim.Native.String.{String}
use text.Mathlib.Text.{◌==◌ as str_eq}
use localdns_go.Prelude.{
  Bool, ℕ, ◌≡◌, ◌⊎◌, ◌↔◌, refl, true, false, Option, none, some, List, [], ◌∷◌, ◌++◌, length,
  Result, ok, err, if◌then◌else◌,
}
use localdns_go.Prelude.Words.{Bytes}
use localdns_go.Net.Ip.{Ip, bytes_equal, ip_equal, v4_in_v6_prefix}
use localdns_go.Split.Conn.{flatten}
use localdns_go.Split.Retrier.{new_retrier, no_stats, dial_with_split_retry}
use localdns_go.Relay.Addr.{
  AddrPort, addr4, addr16, is_equivalent_addr_port, addr_port_from_tcpip, unmap, addr_equal,
}
use localdns_go.Relay.Addr.Same.{is_equivalent_addr_port_iff}
use localdns_go.Relay.Tcp.{new_flow}
use localdns_go.Relay.Udp.{
  Turn, goes_down, goes_up, take_turns, take_turn, copy_round, no_copies, UdpSummary, relay_udp,
}
use localdns_go.Relay.Udp.Counted.{downs, ups, relay_udp_counts}
use localdns_go.Relay.Outbound.{
  Outbound, Outgoing, Target, retried, dial_target, to_resolver, to_target, new_pipe, DialEnv,
  dial_tcp, set_dns,
}
use localdns_go.Relay.Outbound.Routed.{dial_tcp-routes, Suits}
use localdns_go.Relay.Forward.{
  Side, device, target, CopyEvent, copies, ends, handler_runs, Relaying, Handled, handle_tcp,
}
use localdns_go.Relay.Forward.HalfCloses.{ArePermitted}
use localdns_go.Relay.Forward.Cut.{LeavesNothingOpen, handle_tcp-cut}
use localdns_go.Socket.{ResolverError, resolver_address, is_v4, replace_ip, scan, of_family}
use localdns_go.Socket.Protect.{Protector, Control, make_dialer, resolver_dialer}
use localdns_go.Socket.Protect.Lookups.{AsksPlatform, make_dialer-AsksPlatform}

abbrev v4 : Bytes
v4 = 10 ∷ 0 ∷ 0 ∷ 1 ∷ []

abbrev v6 : Bytes
v6 = v4_in_v6_prefix ++ v4

abbrev dest4 : AddrPort
dest4 = record { addr = addr4 v4; port = 53 }

abbrev dest6 : AddrPort
dest6 = record { addr = addr16 v6; port = 53 }

is_equivalent_addr_port_iff_example :
    (is_equivalent_addr_port dest4 dest6 ≡ true) ↔ ((ip_equal v4 v6 ≡ true) × ◌≡◌ {A = ℕ} 53 53)
unfolding addr_port_from_tcpip
is_equivalent_addr_port_iff_example = is_equivalent_addr_port_iff v4 v6 53 53 dest4 dest6 refl refl

-- Two datagrams up, the second one written with an error, and one down that comes too late.
abbrev turns : List (Turn ℕ)
turns =
    goes_up (record { chunk = 1 ∷ 2 ∷ []; error = none }) true
    ∷ goes_up (record { chunk = 3 ∷ []; error = none }) false
    ∷ goes_down (record { chunk = 4 ∷ []; error = none }) true
    ∷ goes_up (record { chunk = 5 ∷ []; error = none }) true
    ∷ []

abbrev reported : UdpSummary
reported = record { duration = 4; upload_bytes = 3; download_bytes = 1 }

relay_udp_counts_example :
    let c = take_turns turns no_copies in
    (left_down : List Bytes) × (left_up : List Bytes) × (downs turns ≡ c.down.handed ++ left_down)
    × (ups turns ≡ c.up.handed ++ left_up)
    × (reported.download_bytes ≡ length (flatten c.down.handed))
    × (reported.upload_bytes ≡ length (flatten c.up.handed))
unfolding addr_port_from_tcpip relay_udp take_turns take_turn copy_round no_copies
relay_udp_counts_example = relay_udp_counts v4 53 1 5 dest4 turns reported refl refl

abbrev dialer : Outbound ℕ
dialer = record { fake_dns_addr = dest4; dns = 3; has_listener = true }

-- Only the target can be reached.
abbrev dest_tls : AddrPort
dest_tls = record { addr = addr4 (10 ∷ 0 ∷ 0 ∷ 2 ∷ []); port = 443 }

abbrev dials : DialEnv ℕ
dials = record {
  attempt = λ dest. if is_equivalent_addr_port dest dest_tls then ok tt else err 1;
  is_tcp = true;
  before = 1;
  after = 2;
}

abbrev connected : Outgoing ℕ
connected = to_target (retried dest_tls (new_retrier 1 2 no_stats)) (new_flow 443 true 2) 0

dial_tcp-routes_example :
    ((ip_equal (10 ∷ 0 ∷ 0 ∷ 2 ∷ []) v4 ≡ true)
      × ◌≡◌ {A = ℕ} 443 53
      × (connected ≡ to_resolver 7 new_pipe))
    ⊎ ((¬ ((ip_equal (10 ∷ 0 ∷ 0 ∷ 2 ∷ []) v4 ≡ true) × ◌≡◌ {A = ℕ} 443 53))
        × (t : Target) × (ms : ℕ) × (connected ≡ to_target t (new_flow 443 true 2) ms)
        × Suits dest_tls dials t)
unfolding addr_port_from_tcpip dial_tcp dial_target dial_with_split_retry set_dns
    is_equivalent_addr_port unmap addr_equal bytes_equal
dial_tcp-routes_example =
    dial_tcp-routes (10 ∷ 0 ∷ 0 ∷ 2 ∷ []) v4 443 53 dest_tls dials dialer 7 connected refl refl refl

abbrev both_duplex : Side → Bool
both_duplex side = true

-- The upload is over, the download is not.
abbrev half_closed_run : List CopyEvent
half_closed_run =
    copies target (1 ∷ []) ∷ copies device (2 ∷ []) ∷ ends target ∷ copies device (3 ∷ []) ∷ []

handle_tcp-cut_example :
    (h : Handled) × (s : Relaying) × (handle_tcp both_duplex v4 53 true true
        (half_closed_run ++ handler_runs ∷ copies device (4 ∷ []) ∷ [])
      ≡ some h)
    × LeavesNothingOpen true h
    × (h.relayed ≡ some s)
    × (s.to_target.handed ≡ 1 ∷ [])
    × (s.to_device.handed ≡ 2 ∷ 3 ∷ [])
    × ArePermitted both_duplex s
unfolding addr_port_from_tcpip
handle_tcp-cut_example =
    handle_tcp-cut both_duplex v4 53 dest4 half_closed_run (copies device (4 ∷ []) ∷ []) refl
      (tt, (tt, (tt, (tt, tt)))) tt

-- Two addresses, and no other text is one.
abbrev parse_toy : String → Option Ip
parse_toy s =
    if str_eq s "10.0.0.1" then some v4 else if str_eq s "::1" then some (0 ∷ 1 ∷ []) else none

abbrev split_toy : String → Result ℕ (String × String)
split_toy s = ok (s, "53")

abbrev join_toy : String → String → String
join_toy host port = host

abbrev platform : Protector
platform = record { protect = λ fd. true; get_resolvers = "10.0.0.1" }

abbrev one_entry : String → List String
one_entry s = s ∷ []

abbrev dial_toy : Option (Control ℕ) → String → String → Result (ResolverError ℕ) String
dial_toy control network address = ok address

make_dialer-AsksPlatform_example :
    AsksPlatform parse_toy split_toy join_toy one_entry dial_toy platform
      (make_dialer parse_toy split_toy join_toy one_entry dial_toy (some platform)).control
      "udp"
      "::1"
      "10.0.0.1"
unfolding make_dialer resolver_address replace_ip scan of_family is_v4 bytes_equal
make_dialer-AsksPlatform_example =
    make_dialer-AsksPlatform parse_toy split_toy join_toy one_entry dial_toy platform
      (resolver_dialer parse_toy split_toy join_toy one_entry dial_toy platform) "udp" "::1"
      "10.0.0.1" refl refl refl
