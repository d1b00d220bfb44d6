-- ===== src/IpMap.antt =====
-- proxy/doh/ipmap/ipmap.go. What `LookupIPAddr` answers is an argument, empty where it fails. The sets
-- stand in a store, and the map holds their indices, so that two holders of one `*IPSet` share it.
pub mod Valid
pub mod Shuffle
pub mod Store
pub mod View
use Prim.Native.String.{String}
use localdns_go.Prelude.{
  ℕ, Bool, true, false, not, ◌||◌, List, [], ◌∷◌, ◌++◌, length, get_or, set, ◌==◌, if◌then◌else◌,
}
use localdns_go.Net.Ip.{Ip, nil_ip, ip_equal}

pub record IpSet : Type 0 where
  pub ips : List Ip
  pub confirmed : Ip

abbrev pub new_set : IpSet
new_set = record { ips = []; confirmed = nil_ip }

-- `has`
unfoldable pub has_ip : List Ip → Ip → Bool
has_ip [] ip = false
has_ip (old ∷ rest) ip = ip_equal old ip || has_ip rest ip

-- `add`
unfoldable pub add_ip : Ip → IpSet → IpSet
add_ip ip s = if not (has_ip s.ips ip) then record s { ips = s.ips ++ ip ∷ [] } else s

-- the locked part of `Add`
unfoldable pub add_all : List Ip → IpSet → IpSet
add_all [] s = s
add_all (ip ∷ resolved) s = add_all resolved (add_ip ip s)

-- `Empty`
unfoldable pub empty : IpSet → Bool
empty s = length s.ips == 0

-- `GetAll`: `rand.Shuffle` swaps pairs of places of the copy, which pairs it draws.
abbrev pub swap : ℕ → ℕ → List Ip → List Ip
swap i j c = set (set c i (get_or c j nil_ip)) j (get_or c i nil_ip)

unfoldable pub shuffle : List (ℕ × ℕ) → List Ip → List Ip
shuffle [] c = c
shuffle ((i, j) ∷ draws) c = shuffle draws (swap i j c)

unfoldable pub get_all : List (ℕ × ℕ) → IpSet → List Ip
get_all draws s = shuffle draws s.ips

-- `Confirm`
unfoldable pub confirm : Ip → IpSet → IpSet
confirm ip s = if ip_equal ip s.confirmed then s else record (add_ip ip s) { confirmed = ip }

-- `Disconfirm`
unfoldable pub disconfirm : Ip → IpSet → IpSet
disconfirm ip s = if ip_equal ip s.confirmed then record s { confirmed = nil_ip } else s
