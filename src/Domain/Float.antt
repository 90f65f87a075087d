-- ===== src/Domain/Float.antt =====
-- Python's `float` as far as the pure parts inspect it: a finite value is a sign and a number of
-- units of 2^-1074, the least positive double.
use lookfile.Prelude.{ℕ, Bool, true, false}

pub data Float : Type 0 where
  finite : Bool → ℕ → Float
  infinite : Bool → Float
  nan : Float

-- `math.isfinite`
abbrev pub is_finite : Float → Bool
is_finite (finite sign units) = true
is_finite (infinite sign) = false
is_finite nan = false
