-- ===== src/Modbus/Write/Laws.antt =====
-- Which requests a write can make, and which points can be written.
use lepg.Base.{
  ℕ, ◌≡◌, ◌⊎◌, inl, inr, Bytes, Bool, true, false, [], ◌∷◌, length, ◌==◌, arith, refl,
  if◌then◌else◌, Bool-cases,
}
use lepg.Base.Int.{ℤ, pos, negsuc}
use lepg.Float.{Float}
use lepg.Model.Modbus.{
  ByteOrder, byte_order_conversion, unset, big_endian, little_endian, mid_little_endian,
  mid_big_endian, other_order,
}
use lepg.Model.Value.{
  DataType, bool, int16, uint16, int32, uint32, float32, float64, string, json, other_type,
}
use lepg.Config.Point.{ModbusPointConfig, is_multi_register, is_write_function_code}
use lepg.Modbus.Write.{
  Request, write_single_coil, write_single_register, write_multiple_registers, no_request, request,
  WriteCode, refused, coil, single, multiple, register_code, write_code, check_code, put_uint32,
  write_coil, write_single_reg, write_multi_reg, dispatch, checked, plan_write,
  unsupported_function_code,
}

abbrev pub is_single_register : DataType → Bool
is_single_register int16 = true
is_single_register uint16 = true
is_single_register _ = false

-- The request writes this point, by the function code that belongs to its own.
abbrev pub IsRequestFor : {F : Type 0} → ModbusPointConfig F → Request → Type 0
IsRequestFor p (write_single_coil a v) =
    (a ≡ p.address) × (p.function_code ≡ pos 1) × (p.data_type ≡ bool) × ((v ≡ 0) ⊎ (v ≡ 0xff00))
IsRequestFor p (write_single_register a v) =
    (a ≡ p.address) × (p.function_code ≡ pos 3) × (is_single_register p.data_type ≡ true)
IsRequestFor p (write_multiple_registers a n bytes) =
    (a ≡ p.address)
    × (p.function_code ≡ pos 3)
    × (is_multi_register p.data_type ≡ true)
    × (n ≡ 2)
    × (length bytes ≡ 4)

length-byte_order_conversion :
    (bytes : Bytes) (order : ByteOrder)
    → length bytes ≡ 4
    → length (byte_order_conversion bytes order) ≡ 4
unfolding byte_order_conversion
length-byte_order_conversion [] order h = h
length-byte_order_conversion (a ∷ []) order h = h
length-byte_order_conversion (a ∷ b ∷ []) order h = h
length-byte_order_conversion (a ∷ b ∷ c ∷ []) order h = h
length-byte_order_conversion (a ∷ b ∷ c ∷ d ∷ []) unset h = h
length-byte_order_conversion (a ∷ b ∷ c ∷ d ∷ []) big_endian h = h
length-byte_order_conversion (a ∷ b ∷ c ∷ d ∷ []) little_endian h = refl
length-byte_order_conversion (a ∷ b ∷ c ∷ d ∷ []) mid_little_endian h = refl
length-byte_order_conversion (a ∷ b ∷ c ∷ d ∷ []) mid_big_endian h = refl
length-byte_order_conversion (a ∷ b ∷ c ∷ d ∷ []) (other_order s) h = h
length-byte_order_conversion (a ∷ b ∷ c ∷ d ∷ e ∷ r) order h = h

-- The function code and the data type behind each function code of a write.
abbrev CodeFits : WriteCode → ℤ → DataType → Type 0
CodeFits (refused e) fc dt = Unit {0}
CodeFits coil fc dt = fc ≡ pos 1
CodeFits single fc dt = (fc ≡ pos 3) × (is_single_register dt ≡ true)
CodeFits multiple fc dt = (fc ≡ pos 3) × (is_multi_register dt ≡ true)

register_code-CodeFits : (dt : DataType) → CodeFits (register_code dt) (pos 3) dt
register_code-CodeFits bool = tt
register_code-CodeFits int16 = (refl, refl)
register_code-CodeFits uint16 = (refl, refl)
register_code-CodeFits int32 = (refl, refl)
register_code-CodeFits uint32 = (refl, refl)
register_code-CodeFits float32 = (refl, refl)
register_code-CodeFits float64 = tt
register_code-CodeFits string = tt
register_code-CodeFits json = tt
register_code-CodeFits (other_type s) = tt

write_code-CodeFits : (fc : ℤ) (dt : DataType) → CodeFits (write_code fc dt) fc dt
unfolding write_code
write_code-CodeFits (negsuc n) dt = tt
write_code-CodeFits (pos n) dt = elim (Bool-cases (n == 1)) [
  | inl one ↦ rw one (ground arith)
  | inr other ↦ elim (Bool-cases (n == 3)) [
    | inl three ↦ let e : n ≡ 3 = ground arith in rw (e) (register_code-CodeFits dt)
    | inr none_of ↦
        rw (other, none_of)
          (elim (Bool-cases (n == 2)) [
            | inl two ↦ rw two tt
            | inr not_two ↦ elim (Bool-cases (n == 4)) [
              | inl four ↦ rw (not_two, four) tt
              | inr not_four ↦ rw (not_two, not_four) tt
            ]
          ])
  ]
]

request-injective : (a b : Request) → request a ≡ request b → a ≡ b
request-injective a b e = cc

coil_values :
    (zero_value : Bool) → let v : ℕ = if zero_value then 0 else 0xff00 in (v ≡ 0) ⊎ (v ≡ 0xff00)
coil_values true = inl refl
coil_values false = inr refl

module _ (fl : Float) where
  open fl use {F, sub, div, is_zero, to_int16, to_uint16, to_int32, to_uint32, bits32}

  coil_request :
      (dt : DataType) (p : ModbusPointConfig F) (raw : F) (r : Request)
      → p.data_type ≡ dt
      → p.function_code ≡ pos 1
      → checked fl (check_code coil dt) (write_coil fl p.address raw) ≡ request r
      → IsRequestFor p r
  unfolding check_code write_coil
  coil_request bool p raw r e fc h =
      let same = request-injective _ r h in rw (← same) (refl, fc, e, coil_values (is_zero raw))
  coil_request int16 p raw r e fc h = cc
  coil_request _ p raw r e fc h = cc

  single_request :
      (dt : DataType) (p : ModbusPointConfig F) (raw : F) (r : Request)
      → p.data_type ≡ dt
      → p.function_code ≡ pos 3
      → checked fl (check_code single dt) (write_single_reg fl p.address raw dt) ≡ request r
      → IsRequestFor p r
  unfolding check_code write_single_reg
  single_request int16 p raw r e fc h = rw (← request-injective _ r h) (refl, fc, rw e refl)
  single_request uint16 p raw r e fc h = rw (← request-injective _ r h) (refl, fc, rw e refl)
  single_request _ p raw r e fc h = cc

  multiple_request :
      (dt : DataType) (p : ModbusPointConfig F) (raw : F) (r : Request)
      → p.data_type ≡ dt
      → p.function_code ≡ pos 3
      → checked fl (check_code multiple dt) (write_multi_reg fl p.address raw dt p.byte_order)
        ≡ request r
      → IsRequestFor p r
  unfolding check_code write_multi_reg put_uint32
  multiple_request int32 p raw r e fc h =
      rw (← request-injective _ r h)
        (refl, fc, rw e refl, refl, length-byte_order_conversion _ p.byte_order refl)
  multiple_request uint32 p raw r e fc h =
      rw (← request-injective _ r h)
        (refl, fc, rw e refl, refl, length-byte_order_conversion _ p.byte_order refl)
  multiple_request float32 p raw r e fc h =
      rw (← request-injective _ r h)
        (refl, fc, rw e refl, refl, length-byte_order_conversion _ p.byte_order refl)
  multiple_request _ p raw r e fc h = cc

  planned_request :
      (code : WriteCode) (p : ModbusPointConfig F) (raw : F) (r : Request)
      → CodeFits code p.function_code p.data_type
      → checked fl (check_code code p.data_type) (dispatch fl code p raw) ≡ request r
      → IsRequestFor p r
  unfolding check_code
  planned_request (refused e) p raw r fits h = cc
  planned_request coil p raw r fits h = coil_request p.data_type p raw r refl fits h
  planned_request single p raw r fits h = single_request p.data_type p raw r refl fits.0 h
  planned_request multiple p raw r fits h = multiple_request p.data_type p raw r refl fits.0 h

  -- Every request that a write makes writes the point: its address, by the single-coil function for a
  -- point of coils with a bool (0 or 0xff00), by the single-register function for a point of holding
  -- registers with a 16-bit type, by two registers and four bytes for one with a 32-bit type. No other
  -- point gives a request.
  pub plan_write-IsRequestFor :
      (p : ModbusPointConfig F) (value : F) (r : Request)
      → plan_write fl p value ≡ request r
      → IsRequestFor p r
  unfolding plan_write
  plan_write-IsRequestFor p value r h =
      planned_request (write_code p.function_code p.data_type) p (div (sub value p.offset) p.scale)
        r (write_code-CodeFits p.function_code p.data_type) h

  -- The request for two registers.
  abbrev pub two_registers : ModbusPointConfig F → ℕ → Request
  two_registers p w =
      write_multiple_registers p.address 2 (byte_order_conversion (put_uint32 w) p.byte_order)

  registers_total :
      (dt : DataType) (p : ModbusPointConfig F) (value : F)
      → p.data_type ≡ dt
      → p.function_code ≡ pos 3
      → (is_single_register dt ≡ true) ⊎ (is_multi_register dt ≡ true)
      → (r : Request) × (plan_write fl p value ≡ request r)
  unfolding plan_write
  registers_total int16 p value e fc h = (
    write_single_register p.address (to_int16 (div (sub value p.offset) p.scale)),
    rw (fc, e) refl,
  )
  registers_total uint16 p value e fc h = (
    write_single_register p.address (to_uint16 (div (sub value p.offset) p.scale)),
    rw (fc, e) refl,
  )
  registers_total int32 p value e fc h =
      (two_registers p (to_int32 (div (sub value p.offset) p.scale)), rw (fc, e) refl)
  registers_total uint32 p value e fc h =
      (two_registers p (to_uint32 (div (sub value p.offset) p.scale)), rw (fc, e) refl)
  registers_total float32 p value e fc h =
      (two_registers p (bits32 (div (sub value p.offset) p.scale)), rw (fc, e) refl)
  registers_total _ p value e fc (inl h) = cc
  registers_total _ p value e fc (inr h) = cc

  -- A point of coils with a bool, and a point of holding registers with a numeric Modbus type, has a
  -- request for every value.
  pub plan_write_total :
      (p : ModbusPointConfig F) (value : F)
      → ((p.function_code ≡ pos 1) × (p.data_type ≡ bool))
        ⊎ ((p.function_code ≡ pos 3)
            × ((is_single_register p.data_type ≡ true) ⊎ (is_multi_register p.data_type ≡ true)))
      → (r : Request) × (plan_write fl p value ≡ request r)
  unfolding plan_write
  plan_write_total p value (inl (fc, dt)) =
      let raw : F = div (sub value p.offset) p.scale in
      (write_single_coil p.address (if is_zero raw then 0 else 0xff00), rw (fc, dt) refl)
  plan_write_total p value (inr (fc, dt)) = registers_total p.data_type p value refl fc dt

  -- A point that is configured with a function code of writing is refused by every write.
  pub plan_write_refuses_write_codes :
      (p : ModbusPointConfig F) (value : F)
      → is_write_function_code p.function_code ≡ true
      → plan_write fl p value ≡ no_request unsupported_function_code
  unfolding plan_write is_write_function_code
  plan_write_refuses_write_codes p value h = ground arith
