-- ===== src/Config/Mqtt/Laws.antt =====
-- What an MQTT configuration that passed its validation is.
use lepg.Base.{
  ℕ, ◌+◌, ◌≤◌, ◌≡◌, Bytes, Bool, true, false, List, [], ◌∷◌, map, All, Option, none, some, arith,
  refl, if◌then◌else◌, ltb,
}
use lepg.Config.ValidationError.{ConfigError, is_empty, seen}
use lepg.Config.Device.{is_nil}
use lepg.Config.Names.{first_duplicate, IsDistinct, first_duplicate-IsDistinct}
use lepg.Config.Mqtt.{
  TopicConfig, MqttDeviceConfig, MqttConfig, validate_source, validate_data_type, refuse_or,
  validate_topic, validate_topics, validate_mqtt_device, validate_mqtt_devices, validate_mqtt,
}

pub record IsGoodTopic (t : TopicConfig) : Type 0 where
  pub has_topic : is_empty t.topic ≡ false
  pub has_point : is_empty t.point_name ≡ false
  pub qos_bound : t.qos ≤ 2
  pub good_source : validate_source t.source ≡ none
  pub good_type : validate_data_type t.data_type ≡ none

pub record IsGoodMqttDevice (d : MqttDeviceConfig) : Type 0 where
  pub named : is_empty d.name ≡ false
  pub has_topics : is_nil d.topics ≡ false
  pub good_topics : All IsGoodTopic d.topics

pub record IsGoodMqtt (m : MqttConfig) : Type 0 where
  pub has_broker : is_empty m.broker_addr ≡ false
  pub has_devices : is_nil m.devices ≡ false
  pub good_devices : All IsGoodMqttDevice m.devices
  pub distinct_names : IsDistinct (map (λ d. d.name) m.devices)

-- A check that refuses, and one that goes on, of a validation that accepted.
accepted_unless :
    (b : Bool) (e : ConfigError) (rest : Option ConfigError)
    → (if b then some e else rest) ≡ none
    → (b ≡ false) × (rest ≡ none)
accepted_unless true e rest h = cc
accepted_unless false e rest h = (refl, h)

refuse_or-eq-none :
    (wrap : ConfigError → ConfigError) (first rest : Option ConfigError)
    → refuse_or wrap first rest ≡ none
    → (first ≡ none) × (rest ≡ none)
refuse_or-eq-none wrap none rest h = (refl, h)
refuse_or-eq-none wrap (some e) rest h = cc

topic_accepted : (t : TopicConfig) → validate_topic t ≡ none → IsGoodTopic t
unfolding validate_topic
topic_accepted t h =
    let (topic, h) = accepted_unless (is_empty t.topic) _ _ h in
    let (point, h) = accepted_unless (is_empty t.point_name) _ _ h in
    let (qos, h) = accepted_unless (ltb 2 t.qos) _ _ h in
    let (source, h) = refuse_or-eq-none _ (validate_source t.source) _ h in
    let (type, h) = refuse_or-eq-none _ (validate_data_type t.data_type) _ h in ground arith

topics_accepted :
    (i : ℕ) (topics : List TopicConfig) → validate_topics i topics ≡ none → All IsGoodTopic topics
unfolding validate_topics
topics_accepted i [] h = tt
topics_accepted i (t ∷ topics) h =
    let (first, rest) = refuse_or-eq-none _ (validate_topic t) _ h in
    (topic_accepted t first, topics_accepted (i + 1) topics rest)

mqtt_device_accepted : (d : MqttDeviceConfig) → validate_mqtt_device d ≡ none → IsGoodMqttDevice d
unfolding validate_mqtt_device
mqtt_device_accepted d h =
    let (named, h) = accepted_unless (is_empty d.name) _ _ h in
    let (topics, h) = accepted_unless (is_nil d.topics) _ _ h in
    record { named = named; has_topics = topics; good_topics = topics_accepted 0 d.topics h }

mqtt_devices_accepted :
    (i : ℕ) (names : List Bytes) (devices : List MqttDeviceConfig)
    → validate_mqtt_devices i names devices ≡ none
    → All IsGoodMqttDevice devices × (first_duplicate names (map (λ d. d.name) devices) ≡ none)
unfolding validate_mqtt_devices first_duplicate
mqtt_devices_accepted i names [] h = (tt, refl)
mqtt_devices_accepted i names (d ∷ devices) h =
    let (first, h) = refuse_or-eq-none _ (validate_mqtt_device d) _ h in
    let (new, h) = accepted_unless (seen d.name names) _ _ h in
    let (good, distinct) = mqtt_devices_accepted (i + 1) (d.name ∷ names) devices h in
    ((mqtt_device_accepted d first, good), rw new distinct)

-- An MQTT configuration that passed its validation has a broker's address and devices with distinct
-- names, each with a name and topics, and each topic has a name, a point, a quality of service of at
-- most 2, and a source and a data type that the validation knows.
pub validate_mqtt-IsGoodMqtt : (m : MqttConfig) → validate_mqtt m ≡ none → IsGoodMqtt m
unfolding validate_mqtt
validate_mqtt-IsGoodMqtt m h =
    let (broker, h) = accepted_unless (is_empty m.broker_addr) _ _ h in
    let (devices, h) = accepted_unless (is_nil m.devices) _ _ h in
    let (good, distinct) = mqtt_devices_accepted 0 [] m.devices h in
    record {
      has_broker = broker;
      has_devices = devices;
      good_devices = good;
      distinct_names = first_duplicate-IsDistinct (map (λ d. d.name) m.devices) distinct;
    }
