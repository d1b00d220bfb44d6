-- ===== src/Split/Frames.antt =====
-- What a TLS peer reads from a byte stream: each byte of a record's body with the record's content
-- type and version. Record boundaries inside a run of the same type are not visible in it.
pub mod Fragments
pub mod Delivery
use localdns_go.Prelude.{
  ℕ, zero, suc, ◌+◌, ◌*◌, ◌≡◌, refl, ap, List, [], ◌∷◌, ◌++◌, map, length, arith,
}
use localdns_go.Prelude.Words.{Bytes}

pub record Tagged : Type 0 where
  pub content_type : ℕ
  pub major : ℕ
  pub minor : ℕ
  pub byte : ℕ

abbrev pub tag : ℕ → ℕ → ℕ → ℕ → Tagged
tag t v1 v2 b = record { content_type = t; major = v1; minor = v2; byte = b }

-- The reader's place: how much of a header it has, or in a body with `n + 1` bytes to come.
pub data Phase : Type 0 where
  start : Phase
  after_type : ℕ → Phase
  after_major : ℕ → ℕ → Phase
  after_minor : ℕ → ℕ → ℕ → Phase
  after_high : ℕ → ℕ → ℕ → ℕ → Phase
  in_body : ℕ → ℕ → ℕ → ℕ → Phase

abbrev pub enter : ℕ → ℕ → ℕ → ℕ → Phase
enter t v1 v2 zero = start
enter t v1 v2 (suc n) = in_body t v1 v2 n

abbrev pub scan : Phase → Bytes → List Tagged
scan start [] = []
scan (after_type _) [] = []
scan (after_major _ _) [] = []
scan (after_minor _ _ _) [] = []
scan (after_high _ _ _ _) [] = []
scan (in_body _ _ _ _) [] = []
scan start (b ∷ bs) = scan (after_type b) bs
scan (after_type t) (b ∷ bs) = scan (after_major t b) bs
scan (after_major t v1) (b ∷ bs) = scan (after_minor t v1 b) bs
scan (after_minor t v1 v2) (b ∷ bs) = scan (after_high t v1 v2 b) bs
scan (after_high t v1 v2 l1) (b ∷ bs) = scan (enter t v1 v2 (l1 * 256 + b)) bs
scan (in_body t v1 v2 n) (b ∷ bs) = tag t v1 v2 b ∷ scan (enter t v1 v2 n) bs

abbrev pub peer_reads : Bytes → List Tagged
peer_reads = scan start

-- Two byte strings that a peer cannot tell apart, whatever follows them.
abbrev pub SameStream : Bytes → Bytes → Type 0
SameStream x y = (rest : Bytes) → peer_reads (x ++ rest) ≡ peer_reads (y ++ rest)

-- Inside a body the next bytes are all content, as long as the record's length lasts.
pub scan-body :
    (t v1 v2 m : ℕ) (xs ys : Bytes)
    → scan (enter t v1 v2 (length xs + m)) (xs ++ ys)
      ≡ map (tag t v1 v2) xs ++ scan (enter t v1 v2 m) ys
scan-body t v1 v2 m [] ys = ap (λ k. scan (enter t v1 v2 k) ys) (omega arith)
scan-body t v1 v2 m (x ∷ xs) ys =
    let e : suc (length xs) + m ≡ suc (length xs + m) = omega arith in
    rw e (ap (◌∷◌ (tag t v1 v2 x)) (scan-body t v1 v2 m xs ys))
