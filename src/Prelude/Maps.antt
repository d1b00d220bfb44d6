-- ===== src/Prelude/Maps.antt =====
-- Go maps as association lists: a write stands in front of what it hides.
use mathlib.Core.Bool.{Bool}
use mathlib.Core.Option.{Option, none, some}
use mathlib.Core.List.{List, [], ◌∷◌}
use Prim.Native.Nat.{ℕ}
use mathlib.Core.Path.{◌≡◌, refl}
use mathlib.Core.Logic.{◌≢◌, ◌⊎◌, inl, inr}
use localdns_go.Prelude.Results.{some_eq}
use native.Mathlib.Omega.{arith}
use localdns_go.Prelude.Tests.{==_iff, Bool-cases, ◌==◌, if◌then◌else◌}

-- A key type with its test for equality.
module _ {ℓ κ} {K : Type κ} {V : Type ℓ} (same : K → K → Bool) where
  unfoldable pub lookup : K → List (K × V) → Option V
  lookup k [] = none
  lookup k ((j, v) ∷ m) = if same j k then some v else lookup k m

  -- m[k] = v
  abbrev pub put : K → V → List (K × V) → List (K × V)
  put k v m = (k, v) ∷ m

  -- delete(m, k)
  unfoldable pub remove : K → List (K × V) → List (K × V)
  remove k [] = []
  remove k ((j, v) ∷ m) = let rest = remove k m in if same j k then rest else (j, v) ∷ rest

module _ {ℓ} {V : Type ℓ} where
  pub lookup-remove :
      (h k : ℕ) (m : List (ℕ × V))
      → lookup ◌==◌ k (remove ◌==◌ h m) ≡ (if h == k then none else lookup ◌==◌ k m)
  unfolding lookup remove
  lookup-remove h k [] = ground arith
  lookup-remove h k ((j, v) ∷ m) = ground (arith, lookup-remove h k m)

  pub lookup-put :
      (h k : ℕ) (v : V) (m : List (ℕ × V))
      → lookup ◌==◌ k (put ◌==◌ h v m) ≡ (if h == k then some v else lookup ◌==◌ k m)
  unfolding lookup
  lookup-put h k v m = refl

  -- The same, read backwards: where a value that is found comes from.
  pub lookup-put_cases :
      (h k : ℕ) (v a : V) (m : List (ℕ × V))
      → lookup ◌==◌ k (put ◌==◌ h v m) ≡ some a
      → ((h ≡ k) × (v ≡ a)) ⊎ ((h ≢ k) × (lookup ◌==◌ k m ≡ some a))
  unfolding lookup
  lookup-put_cases h k v a m e = elim (Bool-cases (h == k)) [
    | inl same ↦ inl ((==_iff h k).0 same, some_eq (rw same at e))
    | inr other ↦ inr (λ q. ground arith, rw other at e)
  ]

  pub lookup-remove_cases :
      (h k : ℕ) (a : V) (m : List (ℕ × V))
      → lookup ◌==◌ k (remove ◌==◌ h m) ≡ some a
      → (h ≢ k) × (lookup ◌==◌ k m ≡ some a)
  lookup-remove_cases h k a m e = elim (Bool-cases (h == k)) [
    | inl same ↦ cc (rw (lookup-remove h k m, same) at e)
    | inr other ↦ (λ q. ground arith, rw (lookup-remove h k m, other) at e)
  ]

  pub lookup-put_self : (h : ℕ) (v : V) (m : List (ℕ × V)) → lookup ◌==◌ h (put ◌==◌ h v m) ≡ some v
  unfolding lookup
  lookup-put_self h v m = rw ((==_iff h h).1 refl) refl

  pub lookup-put_ne :
      (h k : ℕ) (v : V) (m : List (ℕ × V))
      → h ≢ k
      → lookup ◌==◌ k (put ◌==◌ h v m) ≡ lookup ◌==◌ k m
  unfolding lookup
  lookup-put_ne h k v m other = ground arith

  pub lookup-remove_ne :
      (h k : ℕ) (m : List (ℕ × V)) → h ≢ k → lookup ◌==◌ k (remove ◌==◌ h m) ≡ lookup ◌==◌ k m
  lookup-remove_ne h k m other = ground (arith, lookup-remove h k m)
