-- ===== src/Config/Client.antt =====
-- internal/client/config.go: `ClientConfig`, its validation and `InitClientConfig`, and the errors of
-- internal/errors/errors.go that it collects. The providers are parameters: what
-- `PopulateFromProvider` filled in, and what `Unmarshal` decoded.
pub mod Laws
use lepg.Base.{
  ℕ, ◌+◌, Bytes, codes, bytes_eq, Bool, true, false, ◌||◌, List, [], ◌∷◌, ◌++◌, map, Option, none,
  some, if◌then◌else◌,
}
use lepg.Base.Int.{ℤ, is_negative, is_not_positive, is_above}
use lepg.Config.ValidationError.{ConfigError, text_error, at_index, error_text, is_empty}
use lepg.Config.Point.{ModbusPointConfig}
use lepg.Config.Device.{DeviceConfig, is_nil, validate_device}
use lepg.Config.Mqtt.{MqttConfig, validate_mqtt}
use lepg.Config.Names.{first_duplicate}

pub record PathsConfig : Type 0 where
  pub log_path : Bytes
  pub data_path : Bytes
  pub log_max_size : ℤ
  pub log_max_backups : ℤ
  pub log_max_age : ℤ

pub record ClientConfig (F : Type 0) : Type 0 where
  pub server_url : Bytes
  pub port : ℤ
  pub log_level : Bytes
  pub sn : Bytes
  pub token : Bytes
  pub max_retry : ℤ
  pub retry_interval : ℤ
  pub buffer_size : ℤ
  pub upload_batch_size : ℤ
  pub upload_interval : ℤ
  pub paths : PathsConfig
  pub control_listen_addr : Bytes
  pub devices : List (DeviceConfig F)
  pub mqtt : Option MqttConfig

-- `ConfigNotSetError`, `ConfigInvalidError`
pub data SettingError : Type 0 where
  not_set : List Bytes → SettingError
  invalid : Bytes → Bytes → SettingError

-- What `NewConfigValidationErrors` makes of the errors: `nil`, the one error, or all of them.
pub data ValidationErrors : Type 0 where
  no_error : ValidationErrors
  one_error : SettingError → ValidationErrors
  all_errors : List SettingError → ValidationErrors

unfoldable pub new_config_validation_errors : List SettingError → ValidationErrors
new_config_validation_errors [] = no_error
new_config_validation_errors (e ∷ []) = one_error e
new_config_validation_errors (e ∷ f ∷ errs) = all_errors (e ∷ f ∷ errs)

-- `strings.Join(fields, sep)`
abbrev pub join : Bytes → List Bytes → Bytes
join sep [] = []
join sep (s ∷ []) = s
join sep (s ∷ t ∷ more) = s ++ (sep ++ join sep (t ∷ more))

-- `Error()` of the three types
unfoldable pub setting_text : SettingError → Bytes
setting_text (not_set fields) = codes "Missing configs: " ++ join (codes ", ") fields
setting_text (invalid name reason) = codes "invalid config '" ++ (name ++ (codes "': " ++ reason))

unfoldable pub validation_text : ValidationErrors → Bytes
unfolding setting_text
validation_text no_error = []
validation_text (one_error e) = setting_text e
validation_text (all_errors []) = codes "validation failed"
validation_text (all_errors (e ∷ errs)) =
    codes "validation failed:\n  - " ++ join (codes "\n  - ") (map setting_text (e ∷ errs))

-- `validLevels`
unfoldable pub is_valid_level : Bytes → Bool
is_valid_level l =
    bytes_eq l (codes "debug")
    || (bytes_eq l (codes "info") || (bytes_eq l (codes "warn") || bytes_eq l (codes "error")))

-- `if bad { list = append(list, a) }`, in front of what the later checks append
abbrev pub add_if {ℓ} : {A : Type ℓ} → Bool → A → List A → List A
add_if true a rest = a ∷ rest
add_if false a rest = rest

abbrev add_missing : List Bytes → List SettingError → List SettingError
add_missing [] errs = errs
add_missing (f ∷ fields) errs = not_set (f ∷ fields) ∷ errs

module _ {F : Type 0} where
  abbrev pub missing_fields : ClientConfig F → List Bytes
  missing_fields c =
      add_if (is_empty c.sn) (codes "sn") (add_if (is_empty c.token) (codes "token") [])

  -- The errors that `Validate` collects, in its order.
  unfoldable pub setting_errors : ClientConfig F → List SettingError
  setting_errors c = add_missing (missing_fields c) (
      add_if (is_not_positive c.port || is_above c.port 65535)
        (invalid (codes "port") (codes "must be 1-65535"))
        (add_if (if is_valid_level c.log_level then false else true)
          (invalid (codes "log_level") (codes "must be debug/info/warn/error"))
          (add_if (is_negative c.max_retry)
            (invalid (codes "max_retry") (codes "must be non-negative"))
            (add_if (is_negative c.retry_interval)
              (invalid (codes "retry_interval") (codes "must be non-negative"))
              (add_if (is_not_positive c.buffer_size)
                (invalid (codes "buffer_size") (codes "must be positive"))
                (add_if (is_not_positive c.upload_batch_size)
                  (invalid (codes "upload_batch_size") (codes "must be positive"))
                  (add_if (is_not_positive c.upload_interval)
                    (invalid (codes "upload_interval") (codes "must be positive"))
                    (add_if (is_empty c.paths.data_path)
                      (invalid (codes "data_path") (codes "cannot be empty")) []))))))))

  -- `(*ClientConfig).Validate`
  unfoldable pub validate_client : ClientConfig F → ValidationErrors
  validate_client c = new_config_validation_errors (setting_errors c)

-- The errors of `InitClientConfig`, each with what it wraps.
pub data InitError : Type 0 where
  populate_failed unmarshal_devices_failed unmarshal_mqtt_failed : InitError
  device_invalid : ℕ → ConfigError → InitError
  duplicate_device : Bytes → InitError
  mqtt_invalid : ConfigError → InitError
  settings_invalid : ValidationErrors → InitError

pub data Init (F : Type 0) : Type 0 where
  refused : InitError → Init F
  configured : ClientConfig F → Init F

module _ {F : Type 0} where
  abbrev after_device :
      ℕ
      → Option ConfigError × DeviceConfig F
      → Option (ℕ × ConfigError) × List (DeviceConfig F)
      → Option (ℕ × ConfigError) × List (DeviceConfig F)
  after_device i (some e, d) rest = (some (i, e), [])
  after_device i (none, d) (e, devices) = (e, d ∷ devices)

  -- The loop over the devices: the first error with its index, or the devices with what their
  -- validation filled in.
  unfoldable pub validate_devices :
      ℕ → List (DeviceConfig F) → Option (ℕ × ConfigError) × List (DeviceConfig F)
  validate_devices i [] = (none, [])
  validate_devices i (d ∷ devices) =
      after_device i (validate_device d) (validate_devices (i + 1) devices)

  abbrev device_names : List (DeviceConfig F) → List Bytes
  device_names devices = map (λ d. d.name) devices

  -- The last check.
  abbrev check_settings : ClientConfig F → ValidationErrors → Init F
  check_settings c no_error = configured c
  check_settings c errs = refused (settings_invalid errs)

  abbrev with_mqtt : ClientConfig F → MqttConfig → Option ConfigError → Init F
  with_mqtt c m (some e) = refused (mqtt_invalid e)
  with_mqtt c m none =
      let c' : ClientConfig F = record c { mqtt = some m } in check_settings c' (validate_client c')

  -- What the second `Unmarshal` gives: an error, no `mqtt` table, or one.
  abbrev check_mqtt : Option (Option MqttConfig) → ClientConfig F → Init F
  check_mqtt none c = refused unmarshal_mqtt_failed
  check_mqtt (some none) c = check_settings c (validate_client c)
  check_mqtt (some (some m)) c = with_mqtt c m (validate_mqtt m)

  abbrev check_names : Option (Option MqttConfig) → ClientConfig F → Option Bytes → Init F
  check_names mqtt c (some name) = refused (duplicate_device name)
  check_names mqtt c none = check_mqtt mqtt c

  abbrev with_devices :
      Option (Option MqttConfig)
      → ClientConfig F
      → Option (ℕ × ConfigError) × List (DeviceConfig F)
      → Init F
  with_devices mqtt c (some (i, e), devices) = refused (device_invalid i e)
  with_devices mqtt c (none, devices) =
      check_names mqtt (record c { devices = devices }) (first_duplicate [] (device_names devices))

  -- What the first `Unmarshal` gives: an error, or the devices.
  abbrev check_devices :
      Option (List (DeviceConfig F)) → Option (Option MqttConfig) → ClientConfig F → Init F
  check_devices none mqtt c = refused unmarshal_devices_failed
  check_devices (some devices) mqtt c = with_devices mqtt c (validate_devices 0 devices)

  -- The two assertions `provider.(config.IUnmarshaler)` agree: `none` where they fail.
  abbrev check_nested :
      Option (Option (List (DeviceConfig F)) × Option (Option MqttConfig)) → ClientConfig F → Init F
  check_nested none c = check_settings c (validate_client c)
  check_nested (some (devices, mqtt)) c = check_devices devices mqtt c

  -- `InitClientConfig`: `none` is an error of `PopulateFromProvider`.
  unfoldable pub init_client_config :
      Option (ClientConfig F)
      → Option (Option (List (DeviceConfig F)) × Option (Option MqttConfig))
      → Init F
  init_client_config none nested = refused populate_failed
  init_client_config (some c) nested = check_nested nested c
