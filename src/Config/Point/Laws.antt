-- ===== src/Config/Point/Laws.antt =====
-- What a point that passed its validation is, and that a second validation changes nothing.
use lepg.Base.{
  ◌<◌, ◌≡◌, inl, inr, true, false, none, some, arith, ap, sym, ◌==◌, ◌&&◌, if◌then◌else◌,
  Bool-cases, codes,
}
use lepg.Model.Modbus.{read_only}
use lepg.Config.ValidationError.{field_error, is_empty, passed_unless, passed_if}
use lepg.Config.Point.{
  check_quantity, check_order, check_multi_order, ModbusPointConfig, Validated,
  is_write_function_code, is_valid_function_code, is_modbus_type, is_multi_register, default_order,
  is_valid_order, is_plain_order, is_read_only, validate_point,
}

-- The rules for a point, each by itself.
pub record IsGoodPoint {F : Type 0} (p : ModbusPointConfig F) : Type 0 where
  pub named : is_empty p.name ≡ false
  pub known_code : is_valid_function_code p.function_code ≡ true
  pub consistent_access : p.access ≡ read_only → is_write_function_code p.function_code ≡ false
  pub known_type : is_modbus_type p.data_type ≡ true
  pub multi_order : is_multi_register p.data_type ≡ true → is_valid_order p.byte_order ≡ true
  pub plain_order : is_multi_register p.data_type ≡ false → is_plain_order p.byte_order ≡ true
  pub some_registers : 0 < p.quantity

-- The point with the byte order that a missing one stands for.
abbrev pub filled : {F : Type 0} → ModbusPointConfig F → ModbusPointConfig F
filled p =
    if is_multi_register p.data_type
    then record p { byte_order = default_order p.byte_order }
    else p

module _ {F : Type 0} where
  quantity_passed :
      (p q : ModbusPointConfig F) → check_quantity p ≡ (none, q) → (q ≡ p) × (0 < p.quantity)
  quantity_passed p q h =
      let (nonzero, h) = passed_unless (p.quantity == 0) _ _ h in
      (sym (ap (λ (v : Validated F). v.1) h), ground arith)

  order_passed :
      (p q : ModbusPointConfig F)
      → check_order p ≡ (none, q)
      → (q ≡ filled p)
        × (0 < p.quantity)
        × (is_multi_register p.data_type ≡ true → is_valid_order q.byte_order ≡ true)
        × (is_multi_register p.data_type ≡ false → is_plain_order q.byte_order ≡ true)
  order_passed p q h = elim (Bool-cases (is_multi_register p.data_type)) [
    | inl multi ↦
        let h : check_multi_order (record p { byte_order = default_order p.byte_order })
            ≡ (none, q) =
          rw multi at h in
        let (valid, h) = passed_if (is_valid_order (default_order p.byte_order)) _ _ h in
        let (same, positive) =
          quantity_passed (record p { byte_order = default_order p.byte_order }) q h in
        (rw multi same, positive, λ _. rw same valid, λ single. cc)
    | inr single ↦
        let h : (if is_plain_order p.byte_order then check_quantity p else (
          some (
              field_error (codes "byte_order")
                (codes "only applicable for multi-register types (int32, uint32, float32)")),
          p,
        ))
            ≡ (none, q) =
          rw single at h in
        let (plain, h) = passed_if (is_plain_order p.byte_order) _ _ h in
        let (same, positive) = quantity_passed p q h in
        (rw single same, positive, λ multi. cc, λ _. rw same plain)
  ]

  pub validate_point-IsGoodPoint :
      (p q : ModbusPointConfig F) → validate_point p ≡ (none, q) → IsGoodPoint q × (q ≡ filled p)
  unfolding validate_point
  validate_point-IsGoodPoint p q h =
      let (named, h) = passed_unless (is_empty p.name) _ _ h in
      let (code, h) = passed_if (is_valid_function_code p.function_code) _ _ h in
      let (access, h) =
        passed_unless (is_read_only p.access && is_write_function_code p.function_code) _ _ h in
      let (type, h) = passed_if (is_modbus_type p.data_type) _ _ h in
      let (same, positive, multi, single) = order_passed p q h in
      (rw same (ground (arith, multi, single, positive)), same)

  pub validate_point_accepts :
      (p : ModbusPointConfig F) → IsGoodPoint p → validate_point p ≡ (none, p)
  unfolding validate_point
  validate_point_accepts p g = ground arith

  -- A point that passed its validation, with the byte order that the validation filled in, passes it
  -- again and is not changed by it any more.
  pub validate_point-validate_point :
      (p q : ModbusPointConfig F) → validate_point p ≡ (none, q) → validate_point q ≡ (none, q)
  validate_point-validate_point p q h =
      validate_point_accepts q (validate_point-IsGoodPoint p q h).0
