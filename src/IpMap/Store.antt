-- ===== src/IpMap/Store.antt =====
-- `ipMap`, with its sets in a store. `Get` is three steps that other goroutines may come between: a
-- lookup, the resolving of a set that nobody else sees, and the locked second look.
pub mod Stable
use Prim.Native.String.{String}
use text.Mathlib.Text.{◌==◌ as str_eq}
use localdns_go.Prelude.{ℕ, Option, none, some, List, [], ◌∷◌, ◌++◌, length, get_or, set}
use localdns_go.Prelude.Maps.{lookup, put}
use localdns_go.Net.Ip.{Ip}
use localdns_go.IpMap.{IpSet, new_set, add_all}
use localdns_go.IpMap.Valid.{Op, apply}

pub record Store : Type 0 where
  pub sets : List IpSet
  pub table : List (String × ℕ)

-- NewIPMap
abbrev pub new_store : Store
new_store = record { sets = []; table = [] }

-- m.m[hostname]
abbrev pub find : String → Store → Option ℕ
find hostname m = lookup str_eq hostname m.table

abbrev pub set_at : ℕ → Store → IpSet
set_at p m = get_or m.sets p new_set

-- One method call on the set `p`.
abbrev pub update : Op → ℕ → Store → Store
update op p m = record m { sets = set m.sets p (apply op (set_at p m)) }

store_new : String → IpSet → Store → ℕ × Store
store_new hostname s m = (
  length m.sets,
  record { sets = m.sets ++ s ∷ []; table = put str_eq hostname (length m.sets) m.table },
)

commit_found : Option ℕ → String → IpSet → Store → ℕ × Store
commit_found (some p) hostname s m = (p, m)
commit_found none hostname s m = store_new hostname s m

-- The locked part of `Get`: a set that another call has stored meanwhile wins.
unfoldable pub commit : String → IpSet → Store → ℕ × Store
unfolding commit_found store_new
commit hostname s m = commit_found (find hostname m) hostname s m

get_found : Option ℕ → String → List Ip → Store → ℕ × Store
get_found (some p) hostname resolved m = (p, m)
get_found none hostname resolved m = commit hostname (add_all resolved new_set) m

-- `Get` with nothing in between
unfoldable pub get : String → List Ip → Store → ℕ × Store
unfolding get_found commit
get hostname resolved m = get_found (find hostname m) hostname resolved m
