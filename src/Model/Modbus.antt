-- ===== src/Model/Modbus.antt =====
-- internal/model/modbus.go. A string type with named constants is a data type with a constructor for
-- each constant, one for the empty string where the program tests for it, and one for other strings.
use lepg.Base.{ℕ, Bytes, [], ◌∷◌, ◌≡◌, refl}

pub data AccessType : Type 0 where
  read_only read_write write_only : AccessType
  other_access : Bytes → AccessType

pub data ByteOrder : Type 0 where
  unset big_endian little_endian mid_little_endian mid_big_endian : ByteOrder
  other_order : Bytes → ByteOrder

pub data ConnectionType : Type 0 where
  rtu tcp : ConnectionType
  other_connection : Bytes → ConnectionType

-- The `switch` of `ByteOrderConversion`, on four bytes.
abbrev reorder : ByteOrder → ℕ → ℕ → ℕ → ℕ → Bytes
reorder little_endian a b c d = d ∷ c ∷ b ∷ a ∷ []
reorder mid_little_endian a b c d = b ∷ a ∷ d ∷ c ∷ []
reorder mid_big_endian a b c d = c ∷ d ∷ a ∷ b ∷ []
reorder _ a b c d = a ∷ b ∷ c ∷ d ∷ []

-- `ByteOrderConversion`: only four bytes are handled
unfoldable pub byte_order_conversion : Bytes → ByteOrder → Bytes
byte_order_conversion (a ∷ b ∷ c ∷ d ∷ []) order = reorder order a b c d
byte_order_conversion bytes order = bytes

reorder_twice :
    (order : ByteOrder) (a b c d : ℕ)
    → byte_order_conversion (reorder order a b c d) order ≡ a ∷ b ∷ c ∷ d ∷ []
unfolding byte_order_conversion
reorder_twice unset a b c d = refl
reorder_twice big_endian a b c d = refl
reorder_twice little_endian a b c d = refl
reorder_twice mid_little_endian a b c d = refl
reorder_twice mid_big_endian a b c d = refl
reorder_twice (other_order s) a b c d = refl

-- For bytes of any number and every byte order, the bytes that the conversion gives, converted again
-- by the same order, are the bytes at the start: the one function serves reading and writing.
pub byte_order_conversion_twice :
    (bytes : Bytes) (order : ByteOrder)
    → byte_order_conversion (byte_order_conversion bytes order) order ≡ bytes
unfolding byte_order_conversion
byte_order_conversion_twice [] order = refl
byte_order_conversion_twice (a ∷ []) order = refl
byte_order_conversion_twice (a ∷ b ∷ []) order = refl
byte_order_conversion_twice (a ∷ b ∷ c ∷ []) order = refl
byte_order_conversion_twice (a ∷ b ∷ c ∷ d ∷ []) order = reorder_twice order a b c d
byte_order_conversion_twice (a ∷ b ∷ c ∷ d ∷ e ∷ r) order = refl
