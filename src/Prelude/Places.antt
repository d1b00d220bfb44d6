-- ===== src/Prelude/Places.antt =====
-- Changes of lists at one place, and what is found at the other places.
use Prim.Native.Nat.{ℕ, zero, suc}
use mathlib.Core.Path.{◌≡◌, refl, ap}
use mathlib.Core.Logic.{◌≢◌, ◌⊎◌, inl, inr}
use mathlib.Core.List.{List, [], ◌∷◌, ◌++◌}
use mathlib.Core.Option
use mathlib.Core.Option.{Option, none, some}
use native.Mathlib.Omega.{arith}
use localdns_go.Prelude.Tests.{◌==◌, if◌then◌else◌}
use localdns_go.Prelude.Lists.{length, get_elem?, set}

module _ {ℓ} {A : Type ℓ} where
  -- A change of one element; out of bounds it changes nothing.
  abbrev pub modify : List A → ℕ → (A → A) → List A
  modify [] i f = []
  modify (x ∷ xs) zero f = f x ∷ xs
  modify (x ∷ xs) (suc i) f = x ∷ modify xs i f

  pub length-modify : (xs : List A) (i : ℕ) (f : A → A) → length (modify xs i f) ≡ length xs
  length-modify [] i f = refl
  length-modify (x ∷ xs) zero f = refl
  length-modify (x ∷ xs) (suc i) f = ap suc (length-modify xs i f)

  pub get_elem?-modify :
      (xs : List A) (i k : ℕ) (f : A → A)
      → get_elem? (modify xs i f) k
        ≡ (if k == i then Option.map f (get_elem? xs k) else get_elem? xs k)
  get_elem?-modify [] i k f = ground arith
  get_elem?-modify (x ∷ xs) zero zero f = refl
  get_elem?-modify (x ∷ xs) zero (suc k) f = ground arith
  get_elem?-modify (x ∷ xs) (suc i) zero f = ground arith
  get_elem?-modify (x ∷ xs) (suc i) (suc k) f = ground (arith, get_elem?-modify xs i k f)

  pub get_elem?-append_old :
      (xs ys : List A) (i : ℕ) (a : A) → get_elem? xs i ≡ some a → get_elem? (xs ++ ys) i ≡ some a
  get_elem?-append_old [] ys i a h = cc
  get_elem?-append_old (x ∷ xs) ys zero a h = h
  get_elem?-append_old (x ∷ xs) ys (suc i) a h = get_elem?-append_old xs ys i a h

  pub get_elem?-append_new : (xs : List A) (a : A) → get_elem? (xs ++ a ∷ []) (length xs) ≡ some a
  get_elem?-append_new [] a = refl
  get_elem?-append_new (x ∷ xs) a = get_elem?-append_new xs a

  pub get_elem?-append_one :
      (xs : List A) (a : A) (i : ℕ) (b : A)
      → get_elem? (xs ++ a ∷ []) i ≡ some b
      → (get_elem? xs i ≡ some b) ⊎ ((i ≡ length xs) × (a ≡ b))
  get_elem?-append_one [] a zero b h = inr (refl, cc)
  get_elem?-append_one [] a (suc i) b h = cc
  get_elem?-append_one (x ∷ xs) a zero b h = inl h
  get_elem?-append_one (x ∷ xs) a (suc i) b h = elim (get_elem?-append_one xs a i b h) [
    | inl old ↦ inl old
    | inr (at_end, same) ↦ inr (ap suc at_end, same)
  ]

  pub set-append_new : (xs : List A) (a b : A) → set (xs ++ a ∷ []) (length xs) b ≡ xs ++ b ∷ []
  set-append_new [] a b = refl
  set-append_new (x ∷ xs) a b = ap (λ t. x ∷ t) (set-append_new xs a b)

  -- What a write leaves elsewhere.
  pub get_elem?-set_other :
      (xs : List A) (i j : ℕ) (v a : A)
      → v ≢ a
      → get_elem? (set xs i v) j ≡ some a
      → (i ≢ j) × (get_elem? xs j ≡ some a)
  get_elem?-set_other [] i j v a ne h = cc
  get_elem?-set_other (x ∷ xs) zero zero v a ne h = absurd (ne cc)
  get_elem?-set_other (x ∷ xs) zero (suc j) v a ne h = (λ e. absurd (omega (arith, e)), h)
  get_elem?-set_other (x ∷ xs) (suc i) zero v a ne h = (λ e. absurd (omega (arith, e)), h)
  get_elem?-set_other (x ∷ xs) (suc i) (suc j) v a ne h =
      let (other, same) = get_elem?-set_other xs i j v a ne h in
      (λ e. other (omega (arith, e)), same)

  pub get_elem?-length : (xs : List A) (a : A) → get_elem? xs (length xs) ≢ some a
  get_elem?-length [] a h = cc
  get_elem?-length (x ∷ xs) a h = get_elem?-length xs a h
