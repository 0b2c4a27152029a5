-- ===== src/Prelude/Int.antt =====
-- Signed integers over the native numbers, under the library's names, for Go's `int` and `int32`
-- where the sign matters.
use aion_core.Prelude.{
  ℕ, suc, ◌-◌, ◌%◌, ◌^◌, ◌<◌, ◌≡◌, ◌↔◌, refl, Bool-cases, inl, inr, tests, Bool, true, false,
  Option, some, none, List, [], ◌∷◌, length, ltb, ◌==◌, if◌then◌else◌, arith,
}

-- `negsuc n` is -(n + 1).
pub data ℤ : Type 0 where
  pos : ℕ → ℤ
  negsuc : ℕ → ℤ

abbrev pub pos_part : ℤ → ℕ
pos_part (pos n) = n
pos_part (negsuc n) = 0

-- n == 0 and n <= 0
abbrev pub is_zero : ℤ → Bool
is_zero (pos ℕ.zero) = true
is_zero (pos (suc n)) = false
is_zero (negsuc n) = false

abbrev pub is_nonpos : ℤ → Bool
is_nonpos (pos ℕ.zero) = true
is_nonpos (pos (suc n)) = false
is_nonpos (negsuc n) = true

abbrev pub eq_ℤ : ℤ → ℤ → Bool
eq_ℤ (pos a) (pos b) = a == b
eq_ℤ (pos a) (negsuc b) = false
eq_ℤ (negsuc a) (pos b) = false
eq_ℤ (negsuc a) (negsuc b) = a == b

pub eq_ℤ_iff : (a b : ℤ) → (eq_ℤ a b ≡ true) ↔ (a ≡ b)
eq_ℤ_iff a b = ground arith

-- n < z, for a length n
abbrev pub ltb_length : ℕ → ℤ → Bool
ltb_length n (pos z) = ltb n z
ltb_length n (negsuc z) = false

-- Go's `map[int]V` as an association list.
abbrev pub IntMap {ℓ} : Type ℓ → Type ℓ
IntMap V = List (ℤ × V)

module _ {ℓ} {V : Type ℓ} where
  unfoldable pub lookup_int : ℤ → IntMap V → Option V
  lookup_int k [] = none
  lookup_int k ((j, v) ∷ m) = if eq_ℤ j k then some v else lookup_int k m

  unfoldable pub insert_int : ℤ → V → IntMap V → IntMap V
  insert_int k v [] = (k, v) ∷ []
  insert_int k v ((j, w) ∷ m) = if eq_ℤ j k then (k, v) ∷ m else (j, w) ∷ insert_int k v m

  pub lookup_int-insert_int :
      (k j : ℤ) (v : V) (m : IntMap V)
      → lookup_int j (insert_int k v m) ≡ (if eq_ℤ k j then some v else lookup_int j m)
  unfolding lookup_int insert_int
  lookup_int-insert_int k j v [] = refl
  lookup_int-insert_int k j v ((i, w) ∷ m) =
      ground (arith, eq_ℤ_iff k j, eq_ℤ_iff i k, eq_ℤ_iff i j, lookup_int-insert_int k j v m)

  -- A write to a key that is there keeps the number of entries.
  pub length-insert_int :
      (k : ℤ) (v : V) {w : V} (m : IntMap V)
      → lookup_int k m ≡ some w
      → length (insert_int k v m) ≡ length m
  unfolding lookup_int insert_int
  length-insert_int k v {w = w₀} [] h = cc
  length-insert_int k v {w = w₀} ((j, w) ∷ m) h = ground (arith, length-insert_int k v {w = w₀} m)

-- The conversion `int32(z)` keeps the low 32 bits.
abbrev pub from_bits : ℕ → ℤ
from_bits b = if ltb b (2 ^ 31) then pos b else negsuc (2 ^ 32 - 1 - b)

unfoldable pub to_int32 : ℤ → ℤ
to_int32 (pos n) = from_bits (n % 2 ^ 32)
to_int32 (negsuc n) = from_bits (2 ^ 32 - 1 - n % 2 ^ 32)

abbrev pub IsInt32 : ℤ → Type 0
IsInt32 (pos n) = n < 2 ^ 31
IsInt32 (negsuc n) = n < 2 ^ 31

from_bits-IsInt32 : (b : ℕ) → b < 2 ^ 32 → IsInt32 (from_bits b)
from_bits-IsInt32 b h = elim (Bool-cases (ltb b (2 ^ 31))) [
  | inl e ↦ rw e (omega (tests, e))
  | inr e ↦ rw e (ground (arith, e, h))
]

pub to_int32-IsInt32 : (z : ℤ) → IsInt32 (to_int32 z)
unfolding to_int32
to_int32-IsInt32 (pos n) = from_bits-IsInt32 (n % 2 ^ 32) (omega arith)
to_int32-IsInt32 (negsuc n) = from_bits-IsInt32 (2 ^ 32 - 1 - n % 2 ^ 32) (omega arith)

pub to_int32-same : (z : ℤ) → IsInt32 z → to_int32 z ≡ z
unfolding to_int32
to_int32-same (pos n) h = ground (arith, h)
to_int32-same (negsuc n) h = ground (arith, h)
