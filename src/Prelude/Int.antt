-- ===== src/Prelude/Int.antt =====
-- Integers over the native numbers, and the division of C, which rounds towards 0.
use Prim.Native.Nat.{ℕ, zero, suc, ◌/◌, ◌%◌}
use mathlib.Core.Bool.{Bool, true, false}

-- `negsuc n` is -(n + 1).
pub data ℤ : Type 0 where
  pos : ℕ → ℤ
  negsuc : ℕ → ℤ

abbrev pub neg : ℕ → ℤ
neg zero = pos zero
neg (suc n) = negsuc n

abbrev pub magnitude : ℤ → ℕ
magnitude (pos n) = n
magnitude (negsuc n) = suc n

abbrev pub is_negative : ℤ → Bool
is_negative (pos n) = false
is_negative (negsuc n) = true

abbrev pub with_sign : Bool → ℕ → ℤ
with_sign true n = neg n
with_sign false n = pos n

-- `z / n` and `z % n`.
abbrev pub quotient : ℤ → ℕ → ℤ
quotient z n = with_sign (is_negative z) (magnitude z / n)

abbrev pub remainder : ℤ → ℕ → ℤ
remainder z n = with_sign (is_negative z) (magnitude z % n)
