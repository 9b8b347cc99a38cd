-- ===== src/Float.antt =====
-- float64 and its conversions, of which the kernel has no model: the type and what the program uses
-- of it. The conversions to integers give the bits of the Go type that they are named after.
use lepg.Base.{ℕ, Bool}
use lepg.Base.Int.{ℤ}

pub record Float : Type 1 where
  pub F : Type 0
  -- `float64(i)`
  pub of_int : ℤ → F
  pub add : F → F → F
  pub sub : F → F → F
  pub mul : F → F → F
  pub div : F → F → F
  -- `f == 0`
  pub is_zero : F → Bool
  -- `float64(math.Float32frombits(b))` and `math.Float32bits(float32(f))`
  pub of_bits32 : ℕ → F
  pub bits32 : F → ℕ
  -- `uint16(int16(f))`, `uint16(f)`, `uint32(int32(f))`, `uint32(f)`
  pub to_int16 : F → ℕ
  pub to_uint16 : F → ℕ
  pub to_int32 : F → ℕ
  pub to_uint32 : F → ℕ
