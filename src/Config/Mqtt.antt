-- ===== src/Config/Mqtt.antt =====
-- internal/client/config.go: the virtual devices of the MQTT broker and their validation.
pub mod Laws
use lepg.Base.{
  ℕ, ◌+◌, Bytes, codes, bytes_eq, has_prefix, Bool, true, false, List, [], ◌∷◌, ◌++◌, Option, none,
  some, ltb, if◌then◌else◌,
}
use lepg.Base.Int.{ℤ}
use lepg.Model.Value.{
  DataType, bool, int16, uint16, int32, uint32, float32, float64, string, json, other_type,
  data_type_name,
}
use lepg.Config.ValidationError.{
  ConfigError, field_error, text_error, at_index, error_text, is_empty, seen,
}
use lepg.Config.Device.{is_nil}

pub record TopicConfig : Type 0 where
  pub topic : Bytes
  pub qos : ℕ
  pub point_name : Bytes
  pub data_type : DataType
  pub source : Bytes
  pub unit : Bytes
  pub retain : Bool

pub record MqttDeviceConfig : Type 0 where
  pub name : Bytes
  pub client_id : Bytes
  pub username : Bytes
  pub password : Bytes
  pub keep_alive : ℤ
  pub clean_session : Bool
  pub offline_threshold : ℤ
  pub enable_monitor : Bool
  pub topics : List TopicConfig

pub record MqttConfig : Type 0 where
  pub broker_addr : Bytes
  pub devices : List MqttDeviceConfig

-- `validateSource`
unfoldable pub validate_source : Bytes → Option ConfigError
validate_source source =
    if is_empty source
    then some (text_error (codes "cannot be empty; must be json:<path>, plain:, or kv:<key>"))
    else if has_prefix source (codes "json:")
    then (if bytes_eq source (codes "json:")
        then some (text_error (codes "json: path cannot be empty"))
        else none)
    else if bytes_eq source (codes "plain:")
    then none
    else if has_prefix source (codes "kv:")
    then (if bytes_eq source (codes "kv:")
        then some (text_error (codes "kv: key cannot be empty"))
        else none)
    else some (text_error (codes "invalid format; must be json:<path>, plain:, or kv:<key>"))

-- `validateDataType`
unfoldable pub validate_data_type : DataType → Option ConfigError
validate_data_type bool = none
validate_data_type int16 = none
validate_data_type uint16 = none
validate_data_type int32 = none
validate_data_type uint32 = none
validate_data_type float32 = none
validate_data_type float64 = none
validate_data_type json = none
validate_data_type string =
    some (text_error (codes "unsupported data_type: " ++ data_type_name string))
validate_data_type (other_type s) =
    if is_empty s
    then some (text_error (codes "cannot be empty"))
    else some (text_error (codes "unsupported data_type: " ++ s))

-- `if err := check(...); err != nil { return ... }`
abbrev pub refuse_or :
    (ConfigError → ConfigError) → Option ConfigError → Option ConfigError → Option ConfigError
refuse_or wrap (some e) rest = some (wrap e)
refuse_or wrap none rest = rest

-- `(*TopicConfig).Validate`
unfoldable pub validate_topic : TopicConfig → Option ConfigError
validate_topic t =
    if is_empty t.topic
    then some (field_error (codes "topic") (codes "cannot be empty"))
    else if is_empty t.point_name
    then some (field_error (codes "point_name") (codes "cannot be empty"))
    else if ltb 2 t.qos
    then some (field_error (codes "qos") (codes "must be 0, 1, or 2"))
    else refuse_or (λ e. field_error (codes "source") (error_text e)) (validate_source t.source)
        (refuse_or (λ e. field_error (codes "data_type") (error_text e))
          (validate_data_type t.data_type) none)

-- The loop of `(*MQTTDeviceConfig).Validate`.
unfoldable pub validate_topics : ℕ → List TopicConfig → Option ConfigError
validate_topics i [] = none
validate_topics i (t ∷ topics) =
    refuse_or (at_index (codes "topics") i (codes ": ")) (validate_topic t)
      (validate_topics (i + 1) topics)

-- `(*MQTTDeviceConfig).Validate`
unfoldable pub validate_mqtt_device : MqttDeviceConfig → Option ConfigError
validate_mqtt_device d =
    if is_empty d.name
    then some (field_error (codes "name") (codes "cannot be empty"))
    else if is_nil d.topics
    then some (field_error (codes "topics") (codes "at least one topic required"))
    else validate_topics 0 d.topics

-- The loop of `(*MqttConfig).Validate`, with the names seen so far.
unfoldable pub validate_mqtt_devices : ℕ → List Bytes → List MqttDeviceConfig → Option ConfigError
validate_mqtt_devices i names [] = none
validate_mqtt_devices i names (d ∷ devices) =
    refuse_or (at_index (codes "mqtt.devices") i (codes ": ")) (validate_mqtt_device d) (
      if seen d.name names
      then some (field_error (codes "mqtt.devices") (codes "duplicate device name: " ++ d.name))
      else validate_mqtt_devices (i + 1) (d.name ∷ names) devices)

-- `(*MqttConfig).Validate`
unfoldable pub validate_mqtt : MqttConfig → Option ConfigError
validate_mqtt m =
    if is_empty m.broker_addr
    then some (field_error (codes "mqtt.broker_addr") (codes "cannot be empty"))
    else if is_nil m.devices
    then some (
        field_error (codes "mqtt.devices")
          (codes "at least one device required when mqtt is configured"))
    else validate_mqtt_devices 0 [] m.devices
