-- ===== src/Base/Signed.antt =====
-- Signed integers over the native numbers, and the conversion of a uint64 to an int64.
use Prim.Native.Nat.{ℕ, ◌-◌, ◌%◌, ◌^◌}
use p.Base.Tests.{ltb, if◌then◌else◌}

-- `negsuc n` is - (n + 1).
pub data ℤ : Type 0 where
  pos negsuc : ℕ → ℤ

abbrev pub int64 : ℕ → ℤ
int64 n = let w = n % 2 ^ 64 in if ltb w (2 ^ 63) then pos w else negsuc (2 ^ 64 - 1 - w)
