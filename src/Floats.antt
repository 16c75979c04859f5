-- ===== src/Floats.antt =====
-- The arithmetic of `double` and `long double`, which the policies and the shadow device use and
-- which belongs to the machine: a parameter.
use dwpdsim.Base.{ℕ, Bool}

pub record Floats (F : Type 0) : Type 0 where
  pub of_nat : ℕ → F
  -- A conversion to an unsigned integer, towards zero.
  pub to_nat : F → ℕ
  -- The literal `n / d`.
  pub literal : ℕ → ℕ → F
  pub plus : F → F → F
  pub minus : F → F → F
  pub times : F → F → F
  pub over : F → F → F
  pub is_less : F → F → Bool
  pub is_at_most : F → F → Bool
  pub is_finite : F → Bool
  pub ceil : F → F

-- Both formats, and the conversion from the first to the second.
pub record Machine : Type 1 where
  pub Double : Type 0
  pub LongDouble : Type 0
  pub double : Floats Double
  pub long_double : Floats LongDouble
  pub widen : Double → LongDouble
