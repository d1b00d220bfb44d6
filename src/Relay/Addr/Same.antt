-- ===== src/Relay/Addr/Same.antt =====
-- Two addresses from the network stack are equivalent exactly if `net.IP.Equal` takes them as equal.
use localdns_go.Prelude.{
  ℕ, ◌≡◌, ◌≢◌, ◌↔◌, refl, sym, ap, ◌∙◌, true, false, some, [], ◌++◌, length, take, drop, ◌==◌,
  arith, Bool-cases, inl, inr, some_eq, take-append-drop,
}
use localdns_go.Prelude.Words.{Bytes}
use localdns_go.Net.Ip.{v4_in_v6_prefix, bytes_equal, ip_equal}
use localdns_go.Net.Ip.Same.{bytes_equal_iff, to16, ip_equal_iff}
use localdns_go.Relay.Addr.{
  Addr, zero_addr, addr4, addr16, AddrPort, unmap, addr_equal, is_equivalent_addr_port,
  addr_port_from_tcpip,
}

-- The bytes that an address stands for, in the 16-byte form.
bytes16 : Addr → Bytes
bytes16 zero_addr = []
bytes16 (addr4 b) = v4_in_v6_prefix ++ b
bytes16 (addr16 b) = b

-- An unmapped address of the stack: four bytes, or sixteen that are not in the IPv4-in-IPv6 form.
data IsUnmapped : Addr → Type 0 where
  unmapped4 : (b : Bytes) → IsUnmapped (addr4 b)
  unmapped16 : (b : Bytes) → bytes_equal (take 12 b) v4_in_v6_prefix ≡ false → IsUnmapped (addr16 b)

bytes16-unmap : (a : Addr) → bytes16 (unmap a) ≡ bytes16 a
unfolding unmap bytes16
bytes16-unmap zero_addr = refl
bytes16-unmap (addr4 b) = refl
bytes16-unmap (addr16 b) = elim (Bool-cases (bytes_equal (take 12 b) v4_in_v6_prefix)) [
  | inl mapped ↦
      rw mapped
        (ap (λ p. p ++ drop 12 b) (sym ((bytes_equal_iff _ _).0 mapped)) ∙ take-append-drop 12 b)
  | inr other ↦ rw other refl
]

unmap4-IsUnmapped : (b : Bytes) → IsUnmapped (unmap (addr4 b))
unfolding unmap
unmap4-IsUnmapped b = unmapped4 b

unmap16-IsUnmapped : (b : Bytes) → IsUnmapped (unmap (addr16 b))
unfolding unmap
unmap16-IsUnmapped b = elim (Bool-cases (bytes_equal (take 12 b) v4_in_v6_prefix)) [
  | inl mapped ↦ rw mapped (unmapped4 (drop 12 b))
  | inr other ↦ rw other (unmapped16 b other)
]

prefix_cancels : (a b : Bytes) → v4_in_v6_prefix ++ a ≡ v4_in_v6_prefix ++ b → a ≡ b
prefix_cancels a b e = ap (λ t. drop 12 t) e

prefix_ne :
    (a b : Bytes) → bytes_equal (take 12 b) v4_in_v6_prefix ≡ false → v4_in_v6_prefix ++ a ≢ b
prefix_ne a b other e =
    let front : take 12 b ≡ v4_in_v6_prefix = ap (λ t. take 12 t) (sym e) in
    cc (other, (bytes_equal_iff (take 12 b) v4_in_v6_prefix).1 front)

addr_equal_iff :
    {x y : Addr} → IsUnmapped x → IsUnmapped y → (addr_equal x y ≡ true) ↔ (bytes16 x ≡ bytes16 y)
unfolding addr_equal bytes16
addr_equal_iff (unmapped4 a) (unmapped4 b) = (
  (λ h. ap (λ t. v4_in_v6_prefix ++ t) ((bytes_equal_iff a b).0 h)),
  (λ e. (bytes_equal_iff a b).1 (prefix_cancels a b e)),
)
addr_equal_iff (unmapped4 a) (unmapped16 b other) =
    ((λ h. cc), (λ e. absurd (prefix_ne a b other e)))
addr_equal_iff (unmapped16 a other) (unmapped4 b) =
    ((λ h. cc), (λ e. absurd (prefix_ne b a other (sym e))))
addr_equal_iff (unmapped16 a other) (unmapped16 b other') = bytes_equal_iff a b

-- What `addrPortFromTCPUIP` makes of the bytes of an address.
record FromStack (b : Bytes) (port : ℕ) (x : AddrPort) : Type 0 where
  same_port : x.port ≡ port
  same_bytes : bytes16 x.addr ≡ to16 b
  unmapped : IsUnmapped (unmap x.addr)

from_stack :
    (b : Bytes) (port : ℕ) (x : AddrPort)
    → addr_port_from_tcpip b port ≡ some x
    → FromStack b port x
unfolding addr_port_from_tcpip bytes16
from_stack b port x e = elim (Bool-cases (length b == 0)) [
  | inl none_left ↦ cc (rw none_left at e)
  | inr n0 ↦ elim (Bool-cases (length b == 4)) [
    | inl short ↦
        let same : record { addr = addr4 b; port = port } ≡ x = some_eq (simp (n0, short) at e) in
        rw (sym same)
          (record { same_port = refl; same_bytes = rw short refl; unmapped = unmap4-IsUnmapped b })
    | inr n4 ↦ elim (Bool-cases (length b == 16)) [
      | inl long ↦
          let same : record { addr = addr16 b; port = port } ≡ x =
            some_eq (simp (n0, n4, long) at e) in
          rw (sym same)
            (record { same_port = refl; same_bytes = rw n4 refl; unmapped = unmap16-IsUnmapped b })
      | inr n16 ↦ cc (simp (n0, n4, n16) at e)
    ]
  ]
]

-- For two destinations that the network stack delivers, `isEquivalentAddrPort` holds exactly if the
-- ports are the same and `net.IP.Equal` takes the addresses as equal, an IPv4 address and its
-- IPv4-in-IPv6 form included.
pub is_equivalent_addr_port_iff :
    (a b : Bytes) (p q : ℕ) (x y : AddrPort)
    → addr_port_from_tcpip a p ≡ some x
    → addr_port_from_tcpip b q ≡ some y
    → (is_equivalent_addr_port x y ≡ true) ↔ ((ip_equal a b ≡ true) × (p ≡ q))
unfolding is_equivalent_addr_port
is_equivalent_addr_port_iff a b p q x y ha hb =
    let fx = from_stack a p x ha in
    let fy = from_stack b q y hb in
    let (to, from) = addr_equal_iff fx.unmapped fy.unmapped in
    let (same, back) = ip_equal_iff a b in
    let ex : bytes16 (unmap x.addr) ≡ to16 a = bytes16-unmap x.addr ∙ fx.same_bytes in
    let ey : bytes16 (unmap y.addr) ≡ to16 b = bytes16-unmap y.addr ∙ fy.same_bytes in
    (
      (λ h. (back (sym ex ∙ to (ground arith) ∙ ey), ground (arith, fx.same_port, fy.same_port))),
      (λ h.
          let addrs : addr_equal (unmap x.addr) (unmap y.addr) ≡ true =
            from (ex ∙ same h.0 ∙ sym ey) in
          rw addrs (ground (arith, fx.same_port, fy.same_port, h.1))),
    )
