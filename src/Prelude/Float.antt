-- ===== src/Prelude/Float.antt =====
-- Go's float64 is a type R with the operations that the source uses. What is proved of a figure
-- holds for every rounding, since the laws of the operations are not assumed here.
use exotel_monitoring_platfo.Prelude.Int.{ℤ}
use mathlib.Core.Bool.{Bool}

pub record Float64 (R : Type 0) : Type 0 where
  -- float64(n)
  pub of_int : ℤ → R
  pub add : R → R → R
  pub mul : R → R → R
  pub div : R → R → R
  -- x >= y and x > y
  pub ge : R → R → Bool
  pub gt : R → R → Bool
