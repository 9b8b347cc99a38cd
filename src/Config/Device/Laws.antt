-- ===== src/Config/Device/Laws.antt =====
-- What a device that passed its validation is.
use lepg.Base.{
  ℕ, ◌+◌, ◌<◌, ◌≤◌, ◌≡◌, false, List, [], ◌∷◌, All, Option, none, some, arith, refl, ap, sym, ◌∙◌,
  ◌||◌, ◌==◌, ltb, Bytes,
}
use lepg.Config.ValidationError.{ConfigError, is_empty, passed_unless}
use lepg.Config.Point.{ModbusPointConfig, Validated, validate_point}
use lepg.Config.Point.Laws.{IsGoodPoint, validate_point-IsGoodPoint}
use lepg.Model.Modbus.{ConnectionType, rtu, tcp, other_connection}
use lepg.Config.Device.{
  RtuSlaveConfig, TcpSlaveConfig, DeviceConfig, is_unknown_type, lacks_rtu, lacks_tcp, is_nil,
  validate_points, validate_device, hash_input, after_point, with_points, input_of,
}

pub record IsGoodDevice {F : Type 0} (d : DeviceConfig F) : Type 0 where
  pub named : is_empty d.name ≡ false
  pub known_type : is_unknown_type d.type ≡ false
  pub has_rtu : lacks_rtu d.type d.rtu_config ≡ false
  pub has_tcp : lacks_tcp d.type d.tcp_config ≡ false
  pub addressed : 0 < d.slave_id
  pub address_bound : d.slave_id ≤ 247
  pub has_points : is_nil d.points ≡ false
  pub good_points : All IsGoodPoint d.points

-- The three rules on the connection leave no case without an input of the hash.
input_known :
    (slave_id : ℕ) (type : ConnectionType) (r : Option RtuSlaveConfig) (t : Option TcpSlaveConfig)
    → is_unknown_type type ≡ false
    → lacks_rtu type r ≡ false
    → lacks_tcp type t ≡ false
    → (input : Bytes) × (input_of slave_id type r t ≡ some input)
input_known n rtu none t known r' t' = cc
input_known n rtu (some c) t known r' t' = (_, refl)
input_known n tcp r none known r' t' = cc
input_known n tcp r (some c) known r' t' = (_, refl)
input_known n (other_connection s) r t known r' t' = cc

module _ {F : Type 0} where
  after_point_passed :
      (i : ℕ) (v : Validated F) (points : List (ModbusPointConfig F))
      (rest : Option ConfigError × List (ModbusPointConfig F)) (out : List (ModbusPointConfig F))
      → after_point i v points rest ≡ (none, out)
      → (v.0 ≡ none) × (rest.0 ≡ none) × (out ≡ v.1 ∷ rest.1)
  after_point_passed i (some e, p) points rest out h = cc
  after_point_passed i (none, p) points (e, rest) out h = ground arith

  points_passed :
      (i : ℕ) (points out : List (ModbusPointConfig F))
      → validate_points i points ≡ (none, out)
      → All IsGoodPoint out × (is_nil out ≡ is_nil points)
  unfolding validate_points
  points_passed i [] out h =
      let same : [] ≡ out = ap (λ (v : Option ConfigError × List (ModbusPointConfig F)). v.1) h in
      rw (← same) (tt, refl)
  points_passed i (p ∷ points) out h =
      let (first, rest, same) =
        after_point_passed i (validate_point p) points (validate_points (i + 1) points) out h in
      let good = validate_point-IsGoodPoint p (validate_point p).1 (ground (arith, first)) in
      let others =
        points_passed (i + 1) points (validate_points (i + 1) points).1 (ground (arith, rest)) in
      rw same ((good.0, others.0), refl)

  with_points_passed :
      (d out : DeviceConfig F) (v : Option ConfigError × List (ModbusPointConfig F))
      → with_points d v ≡ (none, out)
      → (v ≡ (none, v.1)) × (out ≡ record d { points = v.1 })
  with_points_passed d out (some e, points) h =
      absurd (cc (ap (λ (v : Option ConfigError × DeviceConfig F). v.0) h))
  with_points_passed d out (none, points) h =
      (refl, sym (ap (λ (v : Option ConfigError × DeviceConfig F). v.1) h))

  -- A device that passed its validation obeys every rule for devices, each of its points obeys every
  -- rule for points, and nothing but the byte orders of the points differs from the device before.
  pub validate_device-IsGoodDevice :
      (d out : DeviceConfig F)
      → validate_device d ≡ (none, out)
      → IsGoodDevice out × (out ≡ record d { points = (validate_points 0 d.points).1 })
  unfolding validate_device
  validate_device-IsGoodDevice d out h =
      let (named, h) = passed_unless (is_empty d.name) _ _ h in
      let (known, h) = passed_unless (is_unknown_type d.type) _ _ h in
      let (has_rtu, h) = passed_unless (lacks_rtu d.type d.rtu_config) _ _ h in
      let (has_tcp, h) = passed_unless (lacks_tcp d.type d.tcp_config) _ _ h in
      let (addressed, h) = passed_unless (d.slave_id == 0 || ltb 247 d.slave_id) _ _ h in
      let (some_points, h) = passed_unless (is_nil d.points) _ _ h in
      let (accepted, same) = with_points_passed d out (validate_points 0 d.points) h in
      let (good, kept) = points_passed 0 d.points (validate_points 0 d.points).1 accepted in
      (
        rw same (record {
          named = named;
          known_type = known;
          has_rtu = has_rtu;
          has_tcp = has_tcp;
          addressed = ground arith;
          address_bound = ground arith;
          has_points = kept ∙ some_points;
          good_points = good;
        }),
        same,
      )

  -- A device that passed its validation has a hash: polling it never stops for the want of one.
  pub IsGoodDevice-hash_input :
      (d : DeviceConfig F) → IsGoodDevice d → (input : Bytes) × (hash_input d ≡ some input)
  unfolding hash_input
  IsGoodDevice-hash_input d g =
      input_known d.slave_id d.type d.rtu_config d.tcp_config g.known_type g.has_rtu g.has_tcp
