-- ===== src/Prelude/Int.antt =====
-- The C `int`s that the program returns where they can be negative; `negsuc n` is -(n + 1).
use Prim.Native.Nat.{ℕ}

pub data ℤ : Type 0 where
  pos : ℕ → ℤ
  negsuc : ℕ → ℤ
