-- ===== src/IpMap/Store/Stable.antt =====
-- Whatever the other goroutines do in between, all calls of `Get` for a hostname return one set.
use Prim.Native.String.{String}
use text.Mathlib.TextEquality.{eq_iff}
use text.Mathlib.TextPositions.{eq_refl}
use localdns_go.Prelude.{
  ℕ, zero, suc, ◌<◌, ◌≡◌, none, some, List, [], ◌∷◌, length, get_or, set, All, arith, Option-cases,
  inl, inr, length-append, length-set, All-append,
}
use localdns_go.Prelude.Maps.{lookup}
use localdns_go.Net.Ip.{Ip}
use localdns_go.IpMap.{IpSet, new_set, add_all}
use localdns_go.IpMap.Valid.{Op, IsValid, apply-IsValid, add_all-IsValid, new_set-IsValid}
use localdns_go.IpMap.Store.{Store, new_store, find, update, commit, store_new, get}

-- What any goroutine may do with the map and its sets.
pub data Event : Type 0 where
  commits : String → List Ip → Event
  updates : Op → ℕ → Event

unfoldable pub happen : Event → Store → Store
happen (commits hostname resolved) m = (commit hostname (add_all resolved new_set) m).1
happen (updates op p) m = update op p m

unfoldable pub run : List Event → Store → Store
unfolding happen
run [] m = m
run (e ∷ es) m = run es (happen e m)

find-store_new :
    (k hostname : String) (s : IpSet) (m : Store) (p : ℕ)
    → find hostname m ≡ none
    → find k m ≡ some p
    → find k (store_new hostname s m).1 ≡ some p
unfolding store_new lookup
find-store_new k hostname s m p absent found = ground (arith, eq_iff hostname k)

find-commit :
    (k hostname : String) (s : IpSet) (m : Store) (p : ℕ)
    → find k m ≡ some p
    → find k (commit hostname s m).1 ≡ some p
unfolding commit
find-commit k hostname s m p found = elim (Option-cases (find hostname m)) [
  | inl absent ↦ rw absent (find-store_new k hostname s m p absent found)
  | inr (q, e) ↦ rw e found
]

find-run :
    (k : String) (es : List Event) (m : Store) (p : ℕ)
    → find k m ≡ some p
    → find k (run es m) ≡ some p
unfolding run happen
find-run k [] m p h = h
find-run k (commits hostname resolved ∷ es) m p h =
    let s = add_all resolved new_set in
    find-run k es (commit hostname s m).1 p (find-commit k hostname s m p h)
find-run k (updates op q ∷ es) m p h = find-run k es (update op q m) p h

-- What `commit` returns is what the map then holds.
pub find-commit_self :
    (hostname : String) (s : IpSet) (m : Store)
    → find hostname (commit hostname s m).1 ≡ some (commit hostname s m).0
unfolding commit
find-commit_self hostname s m = elim (Option-cases (find hostname m)) [
  | inl absent ↦ rw absent (unfold lookup in simp eq_refl)
  | inr (q, e) ↦ rw e e
]

commit-found :
    (hostname : String) (s : IpSet) (m : Store) {p : ℕ}
    → find hostname m ≡ some p
    → (commit hostname s m).0 ≡ p
unfolding commit
commit-found hostname s m e = rw e

get-found :
    (hostname : String) (resolved : List Ip) (m : Store) {p : ℕ}
    → find hostname m ≡ some p
    → (get hostname resolved m).0 ≡ p
unfolding get
get-found hostname resolved m e = rw e

pub find-get_self :
    (hostname : String) (resolved : List Ip) (m : Store)
    → find hostname (get hostname resolved m).1 ≡ some (get hostname resolved m).0
unfolding get
find-get_self hostname resolved m = elim (Option-cases (find hostname m)) [
  | inl absent ↦ rw absent (find-commit_self hostname (add_all resolved new_set) m)
  | inr (q, e) ↦ rw e e
]

-- The locked part of one `Get`, any later calls on the map and its sets, and the locked part of
-- another `Get` for the same hostname: both return the same set, also where the second call had
-- resolved a set of its own.
pub commit_agrees :
    (hostname : String) (s s' : IpSet) (m : Store) (es : List Event)
    → (commit hostname s' (run es (commit hostname s m).1)).0 ≡ (commit hostname s m).0
commit_agrees hostname s s' m es =
    let held =
      find-run hostname es (commit hostname s m).1 (commit hostname s m).0
        (find-commit_self hostname s m) in
    commit-found hostname s' _ held

-- Behind a `Get` the map holds the set that it returned, whatever happens later, and each later
-- `Get` returns it with no further lookup of the name.
pub get_agrees :
    (hostname : String) (resolved resolved' : List Ip) (m : Store) (es : List Event)
    → (get hostname resolved' (run es (get hostname resolved m).1)).0 ≡ (get hostname resolved m).0
get_agrees hostname resolved resolved' m es =
    let held =
      find-run hostname es (get hostname resolved m).1 (get hostname resolved m).0
        (find-get_self hostname resolved m) in
    get-found hostname resolved' _ held

-- Every set of the store is valid, and the map points into it.
pub record IsSound (m : Store) : Type 0 where
  pub all_valid : All IsValid m.sets
  pub inside : (k : String) (p : ℕ) → find k m ≡ some p → p < length m.sets

All-set :
    (xs : List IpSet) (i : ℕ) (x : IpSet) → All IsValid xs → IsValid x → All IsValid (set xs i x)
All-set [] i x h v = tt
All-set (y ∷ xs) zero x h v = (v, h.1)
All-set (y ∷ xs) (suc i) x h v = (h.0, All-set xs i x h.1 v)

pub set_at-IsValid : (xs : List IpSet) (i : ℕ) → All IsValid xs → IsValid (get_or xs i new_set)
set_at-IsValid [] i h = new_set-IsValid
set_at-IsValid (y ∷ xs) zero h = h.0
set_at-IsValid (y ∷ xs) (suc i) h = set_at-IsValid xs i h.1

commit-IsSound :
    (hostname : String) (s : IpSet) {m : Store}
    → IsValid s
    → IsSound m
    → IsSound (commit hostname s m).1
unfolding commit
commit-IsSound hostname s {m} v h = elim (Option-cases (find hostname m)) [
  | inl absent ↦ rw absent (record {
    all_valid = All-append IsValid m.sets (s ∷ []) h.all_valid (v, tt);
    inside = λ k p e. unfold lookup in ground (arith, length-append m.sets (s ∷ []), h.inside k p);
  })
  | inr (q, e) ↦ rw e h
]

pub update-IsSound : (op : Op) (p : ℕ) {m : Store} → IsSound m → IsSound (update op p m)
update-IsSound op p {m} h = record {
  all_valid =
      All-set m.sets p _ h.all_valid (apply-IsValid op (set_at-IsValid m.sets p h.all_valid));
  inside = λ k q e. rw length-set (h.inside k q e);
}

pub get-IsSound :
    (hostname : String) (resolved : List Ip) {m : Store}
    → IsSound m
    → IsSound (get hostname resolved m).1
unfolding get
get-IsSound hostname resolved {m} h = elim (Option-cases (find hostname m)) [
  | inl absent ↦ rw absent (commit-IsSound hostname _ (add_all-IsValid resolved new_set-IsValid) h)
  | inr (q, e) ↦ rw e h
]

-- From a map with valid sets that it points into, whatever is resolved and in whatever order the
-- locked parts of `Get` and the methods of the sets happen: every set stays valid, and the map
-- only points at sets that are there.
pub run-IsSound : (es : List Event) {m : Store} → IsSound m → IsSound (run es m)
unfolding run happen
run-IsSound [] h = h
run-IsSound (commits hostname resolved ∷ es) h =
    run-IsSound es (commit-IsSound hostname _ (add_all-IsValid resolved new_set-IsValid) h)
run-IsSound (updates op p ∷ es) h = run-IsSound es (update-IsSound op p h)

pub new_store-IsSound : IsSound new_store
unfolding lookup
new_store-IsSound = record { all_valid = tt; inside = λ k p e. cc }
