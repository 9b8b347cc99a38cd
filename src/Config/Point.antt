-- ===== src/Config/Point.antt =====
-- internal/client/config.go: a data point of a Modbus device and its validation.
pub mod Laws
use lepg.Base.{
  ℕ, Bytes, codes, Bool, true, false, ◌&&◌, ◌||◌, Option, none, some, ◌==◌, if◌then◌else◌,
}
use lepg.Base.Int.{ℤ, is_int}
use lepg.Model.Modbus.{
  AccessType, read_only, ByteOrder, unset, big_endian, little_endian, mid_little_endian,
  mid_big_endian, other_order,
}
use lepg.Model.Value.{DataType, bool, int16, uint16, int32, uint32, float32}
use lepg.Config.ValidationError.{ConfigError, field_error, is_empty}

-- `address` and `quantity` are uint16 in the source, the scale and the offset float64.
pub record ModbusPointConfig (F : Type 0) : Type 0 where
  pub name : Bytes
  pub function_code : ℤ
  pub address : ℕ
  pub quantity : ℕ
  pub data_type : DataType
  pub byte_order : ByteOrder
  pub scale : F
  pub offset : F
  pub unit : Bytes
  pub access : AccessType
  pub cache_enabled : Bool

-- `isWriteFunctionCode`
unfoldable pub is_write_function_code : ℤ → Bool
is_write_function_code fc = is_int fc 5 || (is_int fc 6 || is_int fc 16)

-- `validFunctionCodes`
unfoldable pub is_valid_function_code : ℤ → Bool
is_valid_function_code fc =
    is_int fc 1
    || (is_int fc 2
        || (is_int fc 3 || (is_int fc 4 || (is_int fc 5 || (is_int fc 6 || is_int fc 16)))))

-- `validDataTypes`
abbrev pub is_modbus_type : DataType → Bool
is_modbus_type bool = true
is_modbus_type int16 = true
is_modbus_type uint16 = true
is_modbus_type int32 = true
is_modbus_type uint32 = true
is_modbus_type float32 = true
is_modbus_type _ = false

-- The types of two registers.
abbrev pub is_multi_register : DataType → Bool
is_multi_register int32 = true
is_multi_register uint32 = true
is_multi_register float32 = true
is_multi_register _ = false

-- `if p.ByteOrder == "" { p.ByteOrder = model.ByteOrderBigEndian }`
abbrev pub default_order : ByteOrder → ByteOrder
default_order unset = big_endian
default_order order = order

-- `validByteOrders`
abbrev pub is_valid_order : ByteOrder → Bool
is_valid_order big_endian = true
is_valid_order little_endian = true
is_valid_order mid_little_endian = true
is_valid_order mid_big_endian = true
is_valid_order _ = false

abbrev pub is_plain_order : ByteOrder → Bool
is_plain_order unset = true
is_plain_order big_endian = true
is_plain_order _ = false

abbrev pub is_read_only : AccessType → Bool
is_read_only read_only = true
is_read_only _ = false

abbrev pub Validated : Type 0 → Type 0
Validated F = Option ConfigError × ModbusPointConfig F

module _ {F : Type 0} where
  -- The last check.
  abbrev check_quantity : ModbusPointConfig F → Validated F
  check_quantity p =
      if p.quantity == 0
      then (some (field_error (codes "quantity") (codes "must be greater than 0")), p)
      else (none, p)

  abbrev check_multi_order : ModbusPointConfig F → Validated F
  check_multi_order p =
      if is_valid_order p.byte_order
      then check_quantity p
      else (some (field_error (codes "byte_order") (codes "must be abcd, dcba, badc, or cdab")), p)

  abbrev check_order : ModbusPointConfig F → Validated F
  check_order p =
      if is_multi_register p.data_type
      then check_multi_order (record p { byte_order = default_order p.byte_order })
      else if is_plain_order p.byte_order
      then check_quantity p
      else (
        some (
            field_error (codes "byte_order")
              (codes "only applicable for multi-register types (int32, uint32, float32)")),
        p,
      )

  abbrev check_type : ModbusPointConfig F → Validated F
  check_type p = if is_modbus_type p.data_type then check_order p else (
    some (
        field_error (codes "data_type")
          (codes "must be bool, int16, uint16, int32, uint32, or float32")),
    p,
  )

  abbrev check_access : ModbusPointConfig F → Validated F
  check_access p =
      if is_read_only p.access && is_write_function_code p.function_code
      then (
        some (
            field_error (codes "access")
              (codes "read-only access incompatible with write function codes")),
        p,
      )
      else check_type p

  -- `(*ModbusPointConfig).Validate`: the error, and the point, whose byte order it may fill in
  unfoldable pub validate_point : ModbusPointConfig F → Validated F
  unfolding is_write_function_code is_valid_function_code
  validate_point p =
      if is_empty p.name
      then (some (field_error (codes "name") (codes "point name cannot be empty")), p)
      else if is_valid_function_code p.function_code
      then check_access p
      else (some (field_error (codes "function_code") (codes "must be 1, 2, 3, 4, 5, 6, or 16")), p)
