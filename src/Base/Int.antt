-- ===== src/Base/Int.antt =====
-- Signed integers over the native numbers: a column that is decremented may go below zero.
use Prim.Native.Nat.{ℕ, ◌+◌, ◌-◌}
use mathlib.Core.Path.{◌≡◌}
use native.Mathlib.Omega.{arith}
use copytrade_dashboard.Base.Tests.{leb, if◌then◌else◌}

-- `negsuc n` is -(n + 1).
pub data ℤ : Type 0 where
  pos : ℕ → ℤ
  negsuc : ℕ → ℤ

abbrev pub increment : ℤ → ℤ
increment (pos n) = pos (n + 1)
increment (negsuc n) = if leb n 0 then pos 0 else negsuc (n - 1)

abbrev pub decrement : ℤ → ℤ
decrement (pos n) = if leb n 0 then negsuc 0 else pos (n - 1)
decrement (negsuc n) = negsuc (n + 1)

pub decrement-increment : (z : ℤ) → decrement (increment z) ≡ z
decrement-increment z = ground arith
