-- ===== src/Modbus/Write.antt =====
-- internal/client/modbus_runtime.go: from a value to the request that writes it (`executeWrite`,
-- `writeCoil`, `writeSingleReg`, `writeMultiReg`). The Modbus client is the list of its answers.
pub mod Laws
use lepg.Base.{
  ℕ, ◌/◌, ◌%◌, Bytes, bytes_eq, Bool, true, false, List, [], ◌∷◌, Option, none, some, ◌==◌,
  if◌then◌else◌,
}
use lepg.Base.Int.{ℤ, pos, negsuc}
use lepg.Float.{Float}
use lepg.Model.Modbus.{ByteOrder, byte_order_conversion}
use lepg.Model.Value.{
  DataType, bool, int16, uint16, int32, uint32, float32, float64, string, json, other_type,
}
use lepg.Config.Point.{ModbusPointConfig}

-- What `modbus.Client` is asked to write: an address with a value, or a quantity and bytes.
pub data Request : Type 0 where
  write_single_coil : ℕ → ℕ → Request
  write_single_register : ℕ → ℕ → Request
  write_multiple_registers : ℕ → ℕ → Bytes → Request

pub data WriteError : Type 0 where
  not_online unknown_point read_only_point channel_full : WriteError
  unsupported_data_type read_only_function_code unsupported_function_code : WriteError
  wrong_data_type request_failed : WriteError

-- The request, or the error without one.
pub data Planned : Type 0 where
  no_request : WriteError → Planned
  request : Request → Planned

-- The function code of a write: the `switch` over the function code of the point.
pub data WriteCode : Type 0 where
  refused : WriteError → WriteCode
  coil single multiple : WriteCode

-- FC3 by the data type.
abbrev register_code : DataType → WriteCode
register_code int16 = single
register_code uint16 = single
register_code int32 = multiple
register_code uint32 = multiple
register_code float32 = multiple
register_code bool = refused unsupported_data_type
register_code float64 = refused unsupported_data_type
register_code string = refused unsupported_data_type
register_code json = refused unsupported_data_type
register_code (other_type s) = refused unsupported_data_type

abbrev code_of : ℕ → DataType → WriteCode
code_of n dt =
    if n == 1
    then coil
    else if n == 3
    then register_code dt
    else if n == 2
    then refused read_only_function_code
    else if n == 4
    then refused read_only_function_code
    else refused unsupported_function_code

unfoldable pub write_code : ℤ → DataType → WriteCode
write_code (pos n) dt = code_of n dt
write_code (negsuc n) dt = refused unsupported_function_code

-- The second `switch`: does the function code fit the data type?
unfoldable pub check_code : WriteCode → DataType → Option WriteError
check_code (refused e) dt = some e
check_code coil bool = none
check_code coil _ = some wrong_data_type
check_code single bool = some wrong_data_type
check_code single int32 = some wrong_data_type
check_code single uint32 = some wrong_data_type
check_code single float32 = some wrong_data_type
check_code single _ = none
check_code multiple bool = some wrong_data_type
check_code multiple int16 = some wrong_data_type
check_code multiple uint16 = some wrong_data_type
check_code multiple _ = none

-- `binary.BigEndian.PutUint32`
unfoldable pub put_uint32 : ℕ → Bytes
put_uint32 w = (w / 16777216 % 256) ∷ (w / 65536 % 256) ∷ (w / 256 % 256) ∷ (w % 256) ∷ []

module _ (fl : Float) where
  open fl use {F, sub, div, is_zero, to_int16, to_uint16, to_int32, to_uint32, bits32}

  -- `writeCoil`
  unfoldable pub write_coil : ℕ → F → Planned
  write_coil address value =
      request (write_single_coil address (if is_zero value then 0 else 0xff00))

  -- `writeSingleReg`
  unfoldable pub write_single_reg : ℕ → F → DataType → Planned
  write_single_reg address value int16 = request (write_single_register address (to_int16 value))
  write_single_reg address value uint16 = request (write_single_register address (to_uint16 value))
  write_single_reg address value _ = no_request wrong_data_type

  abbrev multi : ℕ → ByteOrder → ℕ → Planned
  multi address order w =
      request (write_multiple_registers address 2 (byte_order_conversion (put_uint32 w) order))

  -- `writeMultiReg`
  unfoldable pub write_multi_reg : ℕ → F → DataType → ByteOrder → Planned
  write_multi_reg address value int32 order = multi address order (to_int32 value)
  write_multi_reg address value uint32 order = multi address order (to_uint32 value)
  write_multi_reg address value float32 order = multi address order (bits32 value)
  write_multi_reg address value _ order = no_request wrong_data_type

  abbrev dispatch : WriteCode → ModbusPointConfig F → F → Planned
  dispatch (refused e) p raw = no_request e
  dispatch coil p raw = write_coil p.address raw
  dispatch single p raw = write_single_reg p.address raw p.data_type
  dispatch multiple p raw = write_multi_reg p.address raw p.data_type p.byte_order

  abbrev checked : Option WriteError → Planned → Planned
  checked (some e) rest = no_request e
  checked none rest = rest

  -- `executeWrite` for a point that was found: raw = (value - offset) / scale
  unfoldable pub plan_write : ModbusPointConfig F → F → Planned
  unfolding write_code check_code write_coil write_single_reg write_multi_reg put_uint32
  plan_write p value =
      let code : WriteCode = write_code p.function_code p.data_type in
      checked (check_code code p.data_type) (dispatch code p (div (sub value p.offset) p.scale))

  -- `findPoint`
  unfoldable pub find_point : Bytes → List (ModbusPointConfig F) → Option (ModbusPointConfig F)
  find_point name [] = none
  find_point name (p ∷ points) = if bytes_eq p.name name then some p else find_point name points
