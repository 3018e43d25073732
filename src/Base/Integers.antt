-- ===== src/Base/Integers.antt =====
-- The integers over the native numbers, and the difference of two numbers in them.
use Prim.Native.Nat.{ℕ, ◌-◌}
use sync_vault.Base.Tests.{leb, if◌then◌else◌}

pub data ℤ : Type 0 where
  pos negsuc : ℕ → ℤ

abbrev pub difference : ℕ → ℕ → ℤ
difference a b = if leb b a then pos (a - b) else negsuc (b - a - 1)
