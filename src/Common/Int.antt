-- ===== src/Common/Int.antt =====
-- `int` and `std::int32_t` values, which the modelled code passes on and compares.
use Prim.Native.Nat.{ℕ}

-- `negsuc n` is -(n + 1).
pub data ℤ : Type 0 where
  pos : ℕ → ℤ
  negsuc : ℕ → ℤ
