-- ===== src/Prelude/Arith.antt =====
-- Go's `float64` where the code computes with it: constants, comparisons, `*`, `/`, `-` and conversions.
-- The laws are those of IEEE 754, most of them for the value that is not a number.
use Prim.Native.Nat.{ℕ, ◌≤◌, ◌^◌}
use mathlib.Core.Path.{◌≡◌}
use mathlib.Core.Bool.{Bool, true, false}
use pi_monitor.Prelude.Int.{ℤ, pos, ◌≤ℤ◌}

pub record Arith (V : Type 0) : Type 0 where
  pub number : ℕ → V
  pub lt : V → V → Bool
  pub le : V → V → Bool
  pub times : V → V → V
  pub over : V → V → V
  pub minus : V → V → V
  -- the conversion to an integer type
  pub truncate : V → ℤ
  pub nan : V
  pub lt-nan : (a : V) → lt a nan ≡ false
  pub nan-lt : (a : V) → lt nan a ≡ false
  pub nan-le : (a : V) → le nan a ≡ false
  pub over-nan : (a : V) → over a nan ≡ nan
  pub lt_asym : (a b : V) → lt a b ≡ true → lt b a ≡ false
  -- of two values that can be compared one is at most the other, where that is not less than it
  pub le_of-lt : (a b : V) → le a a ≡ true → le b b ≡ true → lt b a ≡ false → le a b ≡ true
  pub le-number : (n : ℕ) → le (number n) (number n) ≡ true
  -- for the integers that have a float64 of their own; what is too small for the integer type becomes
  -- its least value on the platforms of the program
  pub truncate_le : (a : V) (n : ℕ) → n ≤ 2 ^ 53 → le a (number n) ≡ true → truncate a ≤ℤ pos n
