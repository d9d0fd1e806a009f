-- ===== src/Prelude/Int.antt =====
-- Signed integers. The passes carry `i64` constants and never compute with them.
use Prim.Native.Nat.{ℕ}

-- `negsuc n` is -(n + 1).
pub data ℤ : Type 0 where
  pos : ℕ → ℤ
  negsuc : ℕ → ℤ
