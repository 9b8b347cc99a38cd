-- ===== src/Base/Int.antt =====
-- Go's signed integers: `negsuc n` is -(n + 1). The tests that the program makes on them, and the
-- integer that a bit pattern stands for.
use Prim.Native.Nat.{ℕ, ◌-◌}
use mathlib.Core.Bool.{Bool, true, false}
use lepg.Base.Tests.{ltb, ◌==◌, if◌then◌else◌}

pub data ℤ : Type 0 where
  pos negsuc : ℕ → ℤ

-- `a == k`, for a constant that is not negative
abbrev pub is_int : ℤ → ℕ → Bool
is_int (pos n) k = n == k
is_int (negsuc n) k = false

-- `a < 0`
abbrev pub is_negative : ℤ → Bool
is_negative (pos n) = false
is_negative (negsuc n) = true

-- `a <= 0`
abbrev pub is_not_positive : ℤ → Bool
is_not_positive (pos n) = n == 0
is_not_positive (negsuc n) = true

-- `a > k`, for a constant that is not negative
abbrev pub is_above : ℤ → ℕ → Bool
is_above (pos n) k = ltb k n
is_above (negsuc n) k = false

-- int16 and int32 from their bits
abbrev pub signed16 : ℕ → ℤ
signed16 w = if ltb w 32768 then pos w else negsuc (65535 - w)

abbrev pub signed32 : ℕ → ℤ
signed32 w = if ltb w 2147483648 then pos w else negsuc (4294967295 - w)
