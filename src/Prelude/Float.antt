-- ===== src/Prelude/Float.antt =====
-- Go's `float64`, as an interface: the operations that the code uses, and the laws of IEEE 754 that
-- the theorems rest on. A type of values and an instance stand for it everywhere.
use mathlib.Core.Path.{◌≡◌}
use mathlib.Core.Bool.{Bool, true}

pub record Float (V : Type 0) : Type 0 where
  pub zero : V
  -- a >= b; false where one of them is NaN
  pub geb : V → V → Bool
  pub geb_trans : (a b c : V) → geb a b ≡ true → geb b c ≡ true → geb a c ≡ true
