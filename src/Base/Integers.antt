-- ===== src/Base/Integers.antt =====
-- The integers over the native numbers, where the program only keeps one.
use Prim.Native.Nat.{ℕ}

pub data ℤ : Type 0 where
  pos : ℕ → ℤ
  negsuc : ℕ → ℤ
