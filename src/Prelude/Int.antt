-- ===== src/Prelude/Int.antt =====
-- Machine integers with a sign, as the integers they stand for.
use Prim.Native.Nat.{ℕ}

pub data ℤ : Type 0 where
  pos : ℕ → ℤ
  negsuc : ℕ → ℤ
