-- ===== src/Modbus/Point.antt =====
-- internal/client/modbus.go: `parsePointValue`, from the bytes of an answer to a value. The bytes of
-- an answer are below 256, so that `|` of the shifted bytes is their sum. float64 is a parameter.
pub mod Laws
use lepg.Base.{ℕ, ◌+◌, ◌*◌, Bytes, Bool, true, false, List, [], ◌∷◌, take, ◌==◌, if◌then◌else◌, not}
use lepg.Base.Int.{ℤ, pos, signed16, signed32}
use lepg.Float.{Float}
use lepg.Model.Modbus.{ByteOrder, byte_order_conversion}
use lepg.Model.Value.{
  DataType, bool, int16, uint16, int32, uint32, float32, float64, string, json, other_type, Value,
  truth, number,
}
use lepg.Config.Point.{ModbusPointConfig}

-- An index out of range ends the program; `nil` is a value that cannot be parsed.
pub data Parsed (F : Type 0) : Type 0 where
  panicked no_value : Parsed F
  parsed : Value F → Parsed F

-- `binary.BigEndian.Uint16`, `Uint32`
abbrev pub word : ℕ → ℕ → ℕ
word a b = a * 256 + b

abbrev pub double_word : ℕ → ℕ → ℕ → ℕ → ℕ
double_word a b c d = a * 16777216 + b * 65536 + c * 256 + d

module _ (fl : Float) where
  open fl use {F, of_int, add, mul, of_bits32}

  -- `v*point.Scale + point.Offset`
  abbrev pub scaled : ModbusPointConfig F → F → Parsed F
  scaled p v = parsed (number (add (mul v p.scale) p.offset))

  abbrev first_bit : Bytes → Parsed F
  first_bit [] = panicked
  first_bit (a ∷ r) = parsed (truth (not (a == 0)))

  abbrev register : (ℕ → ℤ) → ModbusPointConfig F → Bytes → Parsed F
  register read p [] = panicked
  register read p (a ∷ []) = panicked
  register read p (a ∷ b ∷ r) = scaled p (of_int (read (word a b)))

  abbrev registers : (ℕ → ℤ) → ModbusPointConfig F → Bytes → Parsed F
  registers read p [] = panicked
  registers read p (a ∷ []) = panicked
  registers read p (a ∷ b ∷ []) = panicked
  registers read p (a ∷ b ∷ c ∷ []) = panicked
  registers read p (a ∷ b ∷ c ∷ d ∷ r) = scaled p (of_int (read (double_word a b c d)))

  abbrev float_of : ModbusPointConfig F → Bytes → Parsed F
  float_of p (a ∷ b ∷ c ∷ d ∷ r) = scaled p (of_bits32 (double_word a b c d))
  float_of p _ = no_value

  -- Four bytes at least.
  abbrev float_registers : ModbusPointConfig F → Bytes → Parsed F
  float_registers p [] = no_value
  float_registers p (a ∷ []) = no_value
  float_registers p (a ∷ b ∷ []) = no_value
  float_registers p (a ∷ b ∷ c ∷ []) = no_value
  float_registers p (a ∷ b ∷ c ∷ d ∷ r) =
      float_of p (byte_order_conversion (a ∷ b ∷ c ∷ d ∷ []) p.byte_order)

  abbrev parse_as : DataType → ModbusPointConfig F → Bytes → Parsed F
  parse_as bool p results = first_bit results
  parse_as int16 p results = register signed16 p results
  parse_as uint16 p results = register pos p results
  parse_as int32 p results = registers signed32 p results
  parse_as uint32 p results = registers pos p results
  parse_as float32 p results = float_registers p results
  parse_as float64 p results = no_value
  parse_as string p results = no_value
  parse_as json p results = no_value
  parse_as (other_type s) p results = no_value

  -- `parsePointValue`
  unfoldable pub parse_point_value : ModbusPointConfig F → Bytes → Parsed F
  unfolding byte_order_conversion
  parse_point_value p results = parse_as p.data_type p results
