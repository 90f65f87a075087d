-- ===== src/Domain/Integers.antt =====
-- Python's `int`, where the source admits a negative one.
use lookfile.Prelude.{ℕ}

-- `negsuc n` is -(n + 1).
pub data ℤ : Type 0 where
  pos : ℕ → ℤ
  negsuc : ℕ → ℤ
