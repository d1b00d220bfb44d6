-- ===== src/Relay/Addr.antt =====
-- transport/addr.go, transport/stack_addr.go and the same function in transport/stack/addrs.go, over
-- `netip.Addr` without zones.
pub mod Same
use localdns_go.Prelude.{
  ℕ, Bool, true, false, ◌&&◌, Option, none, some, [], ◌∷◌, length, take, drop, ◌==◌, if◌then◌else◌,
}
use localdns_go.Prelude.Words.{Bytes}
use localdns_go.Net.Ip.{v4_in_v6_prefix, bytes_equal}

-- `netip.Addr`: the zero Addr, an IPv4 address, or an IPv6 address.
pub data Addr : Type 0 where
  zero_addr : Addr
  addr4 : Bytes → Addr
  addr16 : Bytes → Addr

pub record AddrPort : Type 0 where
  pub addr : Addr
  pub port : ℕ

-- `Addr.Unmap`
unfoldable pub unmap : Addr → Addr
unmap (addr16 b) = if bytes_equal (take 12 b) v4_in_v6_prefix then addr4 (drop 12 b) else addr16 b
unmap a = a

-- `==` on `netip.Addr`
unfoldable pub addr_equal : Addr → Addr → Bool
unfolding bytes_equal
addr_equal zero_addr zero_addr = true
addr_equal (addr4 a) (addr4 b) = bytes_equal a b
addr_equal (addr16 a) (addr16 b) = bytes_equal a b
addr_equal _ _ = false

unfoldable pub is_equivalent_addr_port : AddrPort → AddrPort → Bool
unfolding unmap addr_equal
is_equivalent_addr_port a b = addr_equal (unmap a.addr) (unmap b.addr) && a.port == b.port

-- addrPortFromTCPUIP, for the bytes of a `tcpip.Address`
unfoldable pub addr_port_from_tcpip : Bytes → ℕ → Option AddrPort
addr_port_from_tcpip b port =
    if length b == 0
    then none
    else if length b == 4
    then some (record { addr = addr4 b; port = port })
    else if length b == 16
    then some (record { addr = addr16 b; port = port })
    else none
