-- ===== src/Config/Client/Laws.antt =====
-- What a configuration is that `InitClientConfig` hands to the program.
use lepg.Base.{
  ◌≡◌, ◌↔◌, Bytes, Bool, true, false, ◌||◌, List, [], ◌∷◌, map, All, Option, none, some, arith,
  refl, if◌then◌else◌,
}
use lepg.Base.Int.{is_negative, is_not_positive, is_above}
use lepg.Config.ValidationError.{is_empty}
use lepg.Config.Device.Laws.{IsGoodDevice}
use lepg.Config.Mqtt.{MqttConfig}
use lepg.Config.Mqtt.Laws.{IsGoodMqtt}
use lepg.Config.Names.{IsDistinct}
use lepg.Config.Client.{
  ClientConfig, SettingError, no_error, new_config_validation_errors, is_valid_level, add_if,
  missing_fields, add_missing, setting_errors, validate_client,
}

-- The rules for the settings, each by itself.
pub record IsGoodSettings {F : Type 0} (c : ClientConfig F) : Type 0 where
  pub has_sn : is_empty c.sn ≡ false
  pub has_token : is_empty c.token ≡ false
  pub port_positive : is_not_positive c.port ≡ false
  pub port_bound : is_above c.port 65535 ≡ false
  pub level : is_valid_level c.log_level ≡ true
  pub retries : is_negative c.max_retry ≡ false
  pub interval : is_negative c.retry_interval ≡ false
  pub buffer : is_not_positive c.buffer_size ≡ false
  pub batch : is_not_positive c.upload_batch_size ≡ false
  pub upload : is_not_positive c.upload_interval ≡ false
  pub store : is_empty c.paths.data_path ≡ false

abbrev IsGoodOption : Option MqttConfig → Type 0
IsGoodOption none = Unit {0}
IsGoodOption (some m) = IsGoodMqtt m

pub record IsGoodNested {F : Type 0} (c : ClientConfig F) : Type 0 where
  pub good_devices : All IsGoodDevice c.devices
  pub distinct_names : IsDistinct (map (λ d. d.name) c.devices)
  pub good_mqtt : IsGoodOption c.mqtt

add_if-eq-nil {ℓ} :
    {A : Type ℓ} (b : Bool) (a : A) (rest : List A)
    → add_if b a rest ≡ []
    → (b ≡ false) × (rest ≡ [])
add_if-eq-nil true a rest h = cc
add_if-eq-nil false a rest h = (refl, h)

add_missing-eq-nil :
    (fields : List Bytes) (errs : List SettingError)
    → add_missing fields errs ≡ []
    → (fields ≡ []) × (errs ≡ [])
add_missing-eq-nil [] errs h = (refl, h)
add_missing-eq-nil (f ∷ fields) errs h = cc

validation_nil :
    (errs : List SettingError) → new_config_validation_errors errs ≡ no_error → errs ≡ []
unfolding new_config_validation_errors
validation_nil [] h = refl
validation_nil (e ∷ []) h = cc
validation_nil (e ∷ f ∷ errs) h = cc

module _ {F : Type 0} where
  validate_client_accepted : (c : ClientConfig F) → validate_client c ≡ no_error → IsGoodSettings c
  unfolding validate_client setting_errors
  validate_client_accepted c h =
      let h = validation_nil (setting_errors c) h in
      let (fields, h) = add_missing-eq-nil (missing_fields c) _ h in
      let (sn, fields) = add_if-eq-nil (is_empty c.sn) _ _ fields in
      let (token, fields) = add_if-eq-nil (is_empty c.token) _ _ fields in
      let (port, h) = add_if-eq-nil (is_not_positive c.port || is_above c.port 65535) _ _ h in
      let (level, h) = add_if-eq-nil (if is_valid_level c.log_level then false else true) _ _ h in
      let (retries, h) = add_if-eq-nil (is_negative c.max_retry) _ _ h in
      let (interval, h) = add_if-eq-nil (is_negative c.retry_interval) _ _ h in
      let (buffer, h) = add_if-eq-nil (is_not_positive c.buffer_size) _ _ h in
      let (batch, h) = add_if-eq-nil (is_not_positive c.upload_batch_size) _ _ h in
      let (upload, h) = add_if-eq-nil (is_not_positive c.upload_interval) _ _ h in
      let (store, h) = add_if-eq-nil (is_empty c.paths.data_path) _ _ h in ground arith

  -- The validation of the settings accepts exactly the settings that obey every rule: a serial number,
  -- a token, a port between 1 and 65535, a known log level, no negative number of retries or interval,
  -- a positive size of the buffer and of a batch, a positive interval of uploads, a path of the data.
  pub validate_client_exact :
      (c : ClientConfig F) → (validate_client c ≡ no_error) ↔ IsGoodSettings c
  unfolding validate_client setting_errors new_config_validation_errors
  validate_client_exact c = (validate_client_accepted c, λ g. ground arith)
