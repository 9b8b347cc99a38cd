-- ===== src/Config/Device.antt =====
-- internal/client/config.go: a Modbus device, its validation and its hash. SHA-256 is a parameter.
pub mod Laws
use lepg.Base.{
  ℕ, ◌+◌, Bytes, codes, Bool, true, false, List, [], ◌∷◌, ◌++◌, take, Option, none, some, ltb, ◌==◌,
  if◌then◌else◌, ◌||◌,
}
use lepg.Base.Int.{ℤ, pos, negsuc}
use lepg.Errors.{Error}
use lepg.Model.Modbus.{ConnectionType, rtu, tcp, other_connection}
use lepg.Model.Value.{Texts}
use lepg.Config.ValidationError.{
  ConfigError, field_error, text_error, error_text, rune_text, decimal, is_empty,
}
use lepg.Config.Point.{ModbusPointConfig, Validated, validate_point}

pub record RtuSlaveConfig : Type 0 where
  pub port : Bytes
  pub baud_rate : ℤ
  pub data_bits : ℤ
  pub parity : Bytes
  pub stop_bits : ℤ

pub record TcpSlaveConfig : Type 0 where
  pub host : Bytes
  pub port : ℤ

-- Durations are int64 nanoseconds; `slave_id` is a byte. A pointer that may be nil is an option.
pub record DeviceConfig (F : Type 0) : Type 0 where
  pub name : Bytes
  pub type : ConnectionType
  pub timeout : ℤ
  pub offline_threshold : ℤ
  pub enable_monitor : Bool
  pub rtu_config : Option RtuSlaveConfig
  pub tcp_config : Option TcpSlaveConfig
  pub slave_id : ℕ
  pub points : List (ModbusPointConfig F)
  pub poll_interval : ℤ

-- `"points[" + string(rune('0'+i)) + "]"`
unfoldable pub point_field : ℕ → Bytes
point_field i = codes "points[" ++ (rune_text (48 + i) ++ codes "]")

-- `%d` of an int
unfoldable pub decimal_int : ℤ → Bytes
decimal_int (pos n) = decimal n
decimal_int (negsuc n) = codes "-" ++ decimal (n + 1)

-- `d.Type != rtu && d.Type != tcp`, `d.Type == rtu && d.RTU == nil`, `d.Type == tcp && d.TCP == nil`
abbrev pub is_unknown_type : ConnectionType → Bool
is_unknown_type (other_connection s) = true
is_unknown_type _ = false

abbrev pub lacks_rtu : ConnectionType → Option RtuSlaveConfig → Bool
lacks_rtu rtu none = true
lacks_rtu _ _ = false

abbrev pub lacks_tcp : ConnectionType → Option TcpSlaveConfig → Bool
lacks_tcp tcp none = true
lacks_tcp _ _ = false

abbrev pub is_nil {ℓ} : {A : Type ℓ} → List A → Bool
is_nil [] = true
is_nil (_ ∷ _) = false

abbrev rtu_input : ℕ → Option RtuSlaveConfig → Option Bytes
rtu_input slave_id none = none
rtu_input slave_id (some c) = some (codes "rtu:" ++ (c.port ++ (codes ":" ++ decimal slave_id)))

abbrev tcp_input : ℕ → Option TcpSlaveConfig → Option Bytes
tcp_input slave_id none = none
tcp_input slave_id (some c) = some (
    codes "tcp:"
    ++ (c.host ++ (codes ":" ++ (decimal_int c.port ++ (codes ":" ++ decimal slave_id)))))

-- The `switch` of `Hash`: how the device is reached.
abbrev pub input_of :
    ℕ → ConnectionType → Option RtuSlaveConfig → Option TcpSlaveConfig → Option Bytes
input_of slave_id rtu r t = rtu_input slave_id r
input_of slave_id tcp r t = tcp_input slave_id t
input_of slave_id (other_connection s) r t = none

module _ {F : Type 0} where
  -- The loop over the points: a point that passed keeps the byte order that was filled in.
  abbrev after_point :
      ℕ
      → Validated F
      → List (ModbusPointConfig F)
      → Option ConfigError × List (ModbusPointConfig F)
      → Option ConfigError × List (ModbusPointConfig F)
  after_point i (some e, p) points rest =
      (some (field_error (point_field i) (error_text e)), p ∷ points)
  after_point i (none, p) points (e, rest) = (e, p ∷ rest)

  unfoldable pub validate_points :
      ℕ → List (ModbusPointConfig F) → Option ConfigError × List (ModbusPointConfig F)
  validate_points i [] = (none, [])
  validate_points i (p ∷ points) =
      after_point i (validate_point p) points (validate_points (i + 1) points)

  abbrev with_points :
      DeviceConfig F
      → Option ConfigError × List (ModbusPointConfig F)
      → Option ConfigError × DeviceConfig F
  with_points d (e, points) = (e, record d { points = points })

  -- `(*DeviceConfig).Validate`
  unfoldable pub validate_device : DeviceConfig F → Option ConfigError × DeviceConfig F
  validate_device d =
      if is_empty d.name
      then (some (field_error (codes "name") (codes "device name cannot be empty")), d)
      else if is_unknown_type d.type
      then (some (field_error (codes "type") (codes "must be 'rtu' or 'tcp'")), d)
      else if lacks_rtu d.type d.rtu_config
      then (some (field_error (codes "rtu") (codes "RTU config required when type=rtu")), d)
      else if lacks_tcp d.type d.tcp_config
      then (some (field_error (codes "tcp") (codes "TCP config required when type=tcp")), d)
      else if d.slave_id == 0 || ltb 247 d.slave_id
      then (some (field_error (codes "slave_id") (codes "must be between 1 and 247")), d)
      else if is_nil d.points
      then (some (field_error (codes "points") (codes "at least one point required")), d)
      else with_points d (validate_points 0 d.points)

  -- The text that the hash is taken of. `none` is the error.
  unfoldable pub hash_input : DeviceConfig F → Option Bytes
  hash_input d = input_of d.slave_id d.type d.rtu_config d.tcp_config

  abbrev hash_of : Texts F → Option Bytes → Option Bytes
  hash_of t none = none
  hash_of t (some input) = some (t.hex (take 8 (t.sha256 input)))

  -- `(*DeviceConfig).Hash`
  unfoldable pub hash : Texts F → DeviceConfig F → Option Bytes
  hash t d = hash_of t (hash_input d)
