-- ===== src/Base/Ints.antt =====
-- Signed machine integers where only the sign and the size matter.
use Prim.Native.Nat.{ℕ}

-- `negsuc n` is -(n + 1).
pub data ℤ : Type 0 where
  pos : ℕ → ℤ
  negsuc : ℕ → ℤ
