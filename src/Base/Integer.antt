-- ===== src/Base/Integer.antt =====
-- Integers of a fixed width that may be negative: the source's `i32` and `i64`.
use Prim.Native.Nat.{ℕ}

pub data ℤ : Type 0 where
  pos negsuc : ℕ → ℤ
