-- ===== src/Prelude/Words.antt =====
-- Byte slices, and the big-endian 16-bit words of `binary.BigEndian`.
use Prim.Native.Nat.{ℕ, ◌+◌, ◌*◌, ◌/◌, ◌%◌, ◌^◌, ◌<◌}
use mathlib.Core.Path.{◌≡◌}
use mathlib.Core.List.{List, ◌∷◌}
use mathlib.Core.Option.{Option, none, some}
use native.Mathlib.Omega.{arith}

abbrev pub Bytes : Type 0
Bytes = List ℕ

abbrev pub hi_byte : ℕ → ℕ
hi_byte v = v / 256 % 256

abbrev pub lo_byte : ℕ → ℕ
lo_byte v = v % 256

-- `Uint16`: it panics on a slice of fewer than two bytes, which is `none`.
abbrev pub uint16 : Bytes → Option ℕ
uint16 (h ∷ l ∷ rest) = some (h * 256 + l)
uint16 _ = none

-- `PutUint16`, at the front of a slice of at least two bytes.
abbrev pub put_uint16 : ℕ → Bytes → Option Bytes
put_uint16 v (h ∷ l ∷ rest) = some (hi_byte v ∷ lo_byte v ∷ rest)
put_uint16 v _ = none

pub word_of_bytes : (v : ℕ) → v < 2 ^ 16 → hi_byte v * 256 + lo_byte v ≡ v
word_of_bytes v h = omega arith

pub hi_byte_of_word : (h l : ℕ) → h < 256 → l < 256 → hi_byte (h * 256 + l) ≡ h
hi_byte_of_word h l p q = omega arith

pub lo_byte_of_word : (h l : ℕ) → l < 256 → lo_byte (h * 256 + l) ≡ l
lo_byte_of_word h l q = omega arith
