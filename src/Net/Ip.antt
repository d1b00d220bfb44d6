-- ===== src/Net/Ip.antt =====
-- `net.IP`: 4 or 16 bytes, or none; nil and the empty slice are one value here. `Equal` takes an IPv4
-- address and its IPv4-in-IPv6 form as equal.
pub mod Same
use localdns_go.Prelude.{
  ℕ, Bool, true, false, ◌&&◌, [], ◌∷◌, length, take, drop, ◌==◌, if◌then◌else◌,
}
use localdns_go.Prelude.Words.{Bytes}

abbrev pub Ip : Type 0
Ip = Bytes

abbrev pub nil_ip : Ip
nil_ip = []

abbrev pub is_nil : Ip → Bool
is_nil [] = true
is_nil (b ∷ bs) = false

abbrev pub v4_in_v6_prefix : Bytes
v4_in_v6_prefix = 0 ∷ 0 ∷ 0 ∷ 0 ∷ 0 ∷ 0 ∷ 0 ∷ 0 ∷ 0 ∷ 0 ∷ 255 ∷ 255 ∷ []

unfoldable pub bytes_equal : Bytes → Bytes → Bool
bytes_equal [] [] = true
bytes_equal (x ∷ xs) (y ∷ ys) = x == y && bytes_equal xs ys
bytes_equal _ _ = false

abbrev pub is_mapped_form : Ip → Ip → Bool
is_mapped_form v4 v6 = bytes_equal (take 12 v6) v4_in_v6_prefix && bytes_equal v4 (drop 12 v6)

unfoldable pub ip_equal : Ip → Ip → Bool
unfolding bytes_equal
ip_equal ip x =
    if length ip == length x
    then bytes_equal ip x
    else if length ip == 4 && length x == 16
    then is_mapped_form ip x
    else if length ip == 16 && length x == 4
    then is_mapped_form x ip
    else false
