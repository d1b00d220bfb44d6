-- ===== src/Relay/Outbound/Routed.antt =====
-- Where the TCP flows of the device go.
use localdns_go.Prelude.{
  ℕ, ◌-◌, ◌/◌, ◌%◌, ◌^◌, ◌≡◌, ◌≢◌, sym, true, some, ◌==◌, ==_iff, ok, ok_eq, Result-cases,
  Bool-cases, inl, inr, ◌⊎◌, arith,
}
use localdns_go.Split.Conn.{dialed}
use localdns_go.Split.Retrier.{no_stats, new_retrier, dial_with_split_retry}
use localdns_go.Prelude.Words.{Bytes}
use localdns_go.Net.Ip.{ip_equal}
use localdns_go.Relay.Addr.{AddrPort, is_equivalent_addr_port, addr_port_from_tcpip}
use localdns_go.Relay.Addr.Same.{is_equivalent_addr_port_iff}
use localdns_go.Relay.Tcp.{new_flow}
use localdns_go.Relay.Outbound.{
  Outbound, set_dns, new_pipe, DialEnv, Target, retried, direct, dial_target, dial_retried,
  dial_direct, Outgoing, to_resolver, to_target, dial_tcp, wrap_target,
}

-- A connection that was made to `dest` itself. The split retries are for port 443, and the statistics that
-- they start from are zero.
abbrev pub Suits : {E : Type 0} → AddrPort → DialEnv E → Target → Type 0
Suits dest v t =
    (v.attempt dest ≡ ok tt)
    × (((dest.port ≡ 443) × (t ≡ retried dest (new_retrier v.before v.after no_stats)))
        ⊎ ((dest.port ≢ 443) × (t ≡ direct dest dialed)))

module _ {E : Type 0} where
  dial_target-Suits :
      (dest : AddrPort) (v : DialEnv E) (t : Target) → dial_target dest v ≡ ok t → Suits dest v t
  unfolding dial_target dial_retried dial_direct dial_with_split_retry
  dial_target-Suits dest v t run = elim (Result-cases (v.attempt dest)) [
    | inr (e, failed) ↦ elim (Bool-cases (dest.port == 443)) [
      | inl tls ↦ cc (rw (tls, failed) at run)
      | inr plain ↦ cc (rw (plain, failed) at run)
    ]
    | inl (u, worked) ↦ elim (Bool-cases (dest.port == 443)) [
      | inl tls ↦
          (worked, inl ((==_iff dest.port 443).0 tls, sym (ok_eq (rw (tls, worked) at run))))
      | inr plain ↦ elim (Bool-cases v.is_tcp) [
        | inr other ↦ cc (rw (plain, worked, other) at run)
        | inl tcp ↦ (worked, inr (ground arith, sym (ok_eq (rw (plain, worked, tcp) at run))))
      ]
    ]
  ]

module _ {R E : Type 0} where
  -- For a destination and a fake DNS address of the bytes `a` and `b`, of four or sixteen each, at the ports
  -- `p` and `q`: a connection that `DialTCP` returns is served by the resolver that was set last if
  -- `net.IP.Equal` takes the addresses as equal and the ports are the same. Otherwise it is a connection
  -- to the destination itself, to which the dial has worked, with split retries exactly for port 443,
  -- and is counted from its first byte.
  pub dial_tcp-routes :
      (a b : Bytes) (p q : ℕ) (dest : AddrPort) (v : DialEnv E) (od : Outbound R) (dns : R)
      (out : Outgoing R)
      → addr_port_from_tcpip a p ≡ some dest
      → addr_port_from_tcpip b q ≡ some od.fake_dns_addr
      → dial_tcp dest v (set_dns (some dns) od) ≡ ok out
      → ((ip_equal a b ≡ true) × (p ≡ q) × (out ≡ to_resolver dns new_pipe))
        ⊎ ((¬ ((ip_equal a b ≡ true) × (p ≡ q)))
            × (t : Target) × (ms : ℕ) × (out
                ≡ to_target t (new_flow dest.port od.has_listener v.after) ms)
            × Suits dest v t)
  unfolding dial_tcp wrap_target set_dns
  dial_tcp-routes a b p q dest v od dns out ha hb run =
      let (to, from) = is_equivalent_addr_port_iff a b p q dest od.fake_dns_addr ha hb in
      elim (Bool-cases (is_equivalent_addr_port dest od.fake_dns_addr)) [
        | inl fake ↦ inl ((to fake).0, (to fake).1, sym (ok_eq (rw fake at run)))
        | inr other ↦ elim (Result-cases (dial_target dest v)) [
          | inr (e, failed) ↦ cc (rw (other, failed) at run)
          | inl (t, worked) ↦
              let same = ok_eq (rw (other, worked) at run) in
              inr (
                (λ fake. cc (from fake, other)),
                t,
                (v.after - v.before) / 1_000_000 % 2 ^ 32,
                sym same,
                dial_target-Suits dest v t worked,
              )
        ]
      ]
