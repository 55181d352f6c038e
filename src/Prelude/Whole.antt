-- ===== src/Prelude/Whole.antt =====
-- Whole numbers in the place of `float64`, for runs of the model: they satisfy its laws.
use pi_monitor.Prelude.Tests.{leb, ltb}
use pi_monitor.Prelude.Int.{ℤ, pos, ◌≤ℤ◌}
use pi_monitor.Prelude.Arith.{Arith}
use pi_monitor.Prelude.Float.{Float}
use Prim.Native.Nat.{ℕ, ◌-◌, ◌*◌, ◌/◌, ◌^◌, ◌≤◌}
use mathlib.Core.Path.{◌≡◌, refl}
use mathlib.Core.Bool.{Bool, true, false}
use native.Mathlib.Omega.{arith}

pub geb_trans_lem : (a b c : ℕ) → leb b a ≡ true → leb c b ≡ true → leb c a ≡ true
geb_trans_lem a b c h k = ground arith

instance abbrev pub whole_float : Float ℕ
whole_float = record { zero = 0; geb = λ a b. leb b a; geb_trans = geb_trans_lem }

-- Whole numbers, and the value that is not a number.
pub data Value : Type 0 where
  num : ℕ → Value
  nan : Value

abbrev pub lt_value : Value → Value → Bool
lt_value (num a) (num b) = ltb a b
lt_value (num a) nan = false
lt_value nan b = false

abbrev pub le_value : Value → Value → Bool
le_value (num a) (num b) = leb a b
le_value (num a) nan = false
le_value nan b = false

abbrev pub times_value : Value → Value → Value
times_value (num a) (num b) = num (a * b)
times_value (num a) nan = nan
times_value nan b = nan

abbrev pub over_value : Value → Value → Value
over_value (num a) (num b) = num (a / b)
over_value (num a) nan = nan
over_value nan b = nan

abbrev pub truncate_value : Value → ℤ
truncate_value (num a) = pos a
truncate_value nan = pos 0

pub lt_value-nan : (a : Value) → lt_value a nan ≡ false
lt_value-nan (num a) = refl
lt_value-nan nan = refl

pub over_value-nan : (a : Value) → over_value a nan ≡ nan
over_value-nan (num a) = refl
over_value-nan nan = refl

abbrev pub minus_value : Value → Value → Value
minus_value (num a) (num b) = num (a - b)
minus_value (num a) nan = nan
minus_value nan b = nan

pub lt_value_asym : (a b : Value) → lt_value a b ≡ true → lt_value b a ≡ false
lt_value_asym (num a) (num b) h = ground arith
lt_value_asym (num a) nan h = refl
lt_value_asym nan b h = absurd cc

pub le_value_of-lt_value :
    (a b : Value)
    → le_value a a ≡ true
    → le_value b b ≡ true
    → lt_value b a ≡ false
    → le_value a b ≡ true
le_value_of-lt_value (num a) (num b) h k l = ground arith
le_value_of-lt_value (num a) nan h k l = absurd cc
le_value_of-lt_value nan b h k l = absurd cc

pub le_value_refl : (n : ℕ) → le_value (num n) (num n) ≡ true
le_value_refl n = ground arith

pub truncate_value_le :
    (a : Value) (n : ℕ) → n ≤ 2 ^ 53 → le_value a (num n) ≡ true → truncate_value a ≤ℤ pos n
truncate_value_le (num a) n h l = ground arith
truncate_value_le nan n h l = absurd cc

instance abbrev pub whole_arith : Arith Value
whole_arith = record {
  number = num;
  lt = lt_value;
  le = le_value;
  times = times_value;
  over = over_value;
  minus = minus_value;
  truncate = truncate_value;
  nan = nan;
  lt-nan = lt_value-nan;
  nan-lt = λ a. refl;
  nan-le = λ a. refl;
  over-nan = over_value-nan;
  lt_asym = lt_value_asym;
  le_of-lt = le_value_of-lt_value;
  le-number = le_value_refl;
  truncate_le = truncate_value_le;
}
