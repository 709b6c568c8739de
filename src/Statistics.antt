-- ===== src/Statistics.antt =====
-- protocol/src/connection_statistics.cpp: what a connection counts of its packets, and their loss.
pub mod LossTracker
pub mod Windows
pub mod Recording
use ts_cli.Prelude.{ℕ, ◌+◌, ◌-◌, leb, if◌then◌else◌}

-- `int64_t`, and the sums and differences that the code forms of such numbers.
pub data ℤ : Type 0 where
  pos : ℕ → ℤ
  negsuc : ℕ → ℤ

-- The difference of two numbers.
unfoldable pub difference : ℕ → ℕ → ℤ
difference m n = if leb n m then pos (m - n) else negsuc (n - m - 1)

infixl 6 ◌+ℤ◌
unfoldable pub ◌+ℤ◌ : ℤ → ℤ → ℤ
unfolding difference
pos m +ℤ pos n = pos (m + n)
pos m +ℤ negsuc n = difference m (n + 1)
negsuc m +ℤ pos n = difference n (m + 1)
negsuc m +ℤ negsuc n = negsuc (m + n + 1)

-- `LossDelta`
pub record LossDelta : Type 0 where
  pub expected : ℕ
  pub lost : ℤ
