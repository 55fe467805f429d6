-- ===== src/Prelude/Int.antt =====
-- C's `int` values as signed integers over the native numbers, with the comparisons that the code
-- makes.
use Prim.Native.Nat.{ℕ}
use mathlib.Core.Bool.{Bool, false}
use aegir.Prelude.Tests.{◌==◌ as nat_beq}

-- `negsuc n` is -(n + 1).
pub data ℤ : Type 0 where
  pos : ℕ → ℤ
  negsuc : ℕ → ℤ

abbrev pub minus_one : ℤ
minus_one = negsuc 0

abbrev pub eq_ℤ : ℤ → ℤ → Bool
eq_ℤ (pos m) (pos n) = nat_beq m n
eq_ℤ (pos m) (negsuc n) = false
eq_ℤ (negsuc m) (pos n) = false
eq_ℤ (negsuc m) (negsuc n) = nat_beq m n

-- The pattern of a negative number read back as an unsigned word of `modulus` values.
abbrev pub is_neg : ℤ → Bool
is_neg (pos n) = false
is_neg (negsuc n) = mathlib.Core.Bool.true
