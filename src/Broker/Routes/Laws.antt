-- ===== src/Broker/Routes/Laws.antt =====
-- The broker of a validated configuration: it starts, and its readings are those of known devices.
use lepg.Base.{
  ℕ, Bytes, bytes_eq, bytes_eq_iff, Bool, true, false, List, [], ◌∷◌, ◌++◌, All, Option, none, some,
  map, StringMap, find, put, find-put, ◌≡◌, refl, ap, ◌∙◌, if◌then◌else◌, Bool-cases, inl, inr,
  ◌==◌,
}
use lepg.Reading.{Reading}
use lepg.Model.Value.{Value, serialize_value}
use lepg.Config.ValidationError.{is_empty}
use lepg.Config.Mqtt.{TopicConfig, MqttDeviceConfig, MqttConfig}
use lepg.Config.Mqtt.Laws.{IsGoodTopic, IsGoodMqttDevice, IsGoodMqtt}
use lepg.Broker.Source.{validate_source-parse_source}
use lepg.Broker.Extract.{extract_value, check_data_type}
use lepg.Broker.Timestamps.{Times, extract_timestamp}
use lepg.Broker.Routes.{
  Route, Indexes, topic_routes, device_routes, virtual_device_hash, index_devices,
  start_mqtt_broker, find_or_empty, mqtt_reading, with_time, with_value, handle_mqtt_reading,
}

-- Every topic, with the device that it belongs to.
abbrev pub topics_of : Bytes → List TopicConfig → List (Bytes × TopicConfig)
topics_of device topics = map (λ t. (device, t)) topics

abbrev pub all_topics : List MqttDeviceConfig → List (Bytes × TopicConfig)
all_topics [] = []
all_topics (d ∷ devices) = topics_of d.name d.topics ++ all_topics devices

abbrev pub served : List Route → List (Bytes × TopicConfig)
served routes = map (λ r. (r.device, r.topic)) routes

topic_routes_good :
    (device : Bytes) (topics : List TopicConfig)
    → All IsGoodTopic topics
    → (routes : List Route) × (topic_routes device topics ≡ some routes)
      × (served routes ≡ topics_of device topics)
unfolding topic_routes
topic_routes_good device [] h = ([], refl, refl)
topic_routes_good device (t ∷ topics) (g, h) =
    let (f, parsed, path) = (validate_source-parse_source t.source).0 g.good_source in
    let (routes, same, covers) = topic_routes_good device topics h in
    (
      record { device = device; topic = t; source = f } ∷ routes,
      rw (parsed, same) refl,
      ap (◌∷◌ (device, t)) covers,
    )

map_append : (rs more : List Route) → served (rs ++ more) ≡ served rs ++ served more
map_append [] more = refl
map_append (r ∷ rs) more = ap (◌∷◌ (r.device, r.topic)) (map_append rs more)

device_routes_good :
    (devices : List MqttDeviceConfig)
    → All IsGoodMqttDevice devices
    → (routes : List Route) × (device_routes devices ≡ some routes)
      × (served routes ≡ all_topics devices)
unfolding device_routes
device_routes_good [] h = ([], refl, refl)
device_routes_good (d ∷ devices) (g, h) =
    let (first, same, covers) = topic_routes_good d.name d.topics g.good_topics in
    let (rest, same_rest, covers_rest) = device_routes_good devices h in
    (
      first ++ rest,
      rw (same, same_rest) refl,
      map_append first rest ∙ rw (covers, covers_rest) refl,
    )

merged : {A : Type 0} (b : Bool) {x y : A} → x ≡ y → (if b then y else x) ≡ y
merged true e = refl
merged false e = e

module _ {F : Type 0} (tm : Times F) where
  -- With a configuration that passed its validation the broker starts: it subscribes to every topic of
  -- every device, in order, each under the name of its device.
  pub start_mqtt_broker_total :
      (m : MqttConfig)
      → IsGoodMqtt m
      → (routes : List Route) × ((start_mqtt_broker tm m).1 ≡ some routes)
        × (served routes ≡ all_topics m.devices)
  unfolding start_mqtt_broker
  start_mqtt_broker_total m g = device_routes_good m.devices g.good_devices

  -- The name of a device of the list.
  abbrev pub names_device : Bytes → List MqttDeviceConfig → Bool
  names_device name [] = false
  names_device name (d ∷ devices) = if bytes_eq d.name name then true else names_device name devices

  find-index_devices :
      (devices : List MqttDeviceConfig) (ix : Indexes) (name : Bytes)
      → find name (index_devices tm devices ix).device_hashes ≡ (
          if names_device name devices
          then some (virtual_device_hash tm name)
          else find name ix.device_hashes)
  unfolding index_devices
  find-index_devices [] ix name = refl
  find-index_devices (d ∷ devices) ix name =
      find-index_devices devices
        (record {
          device_hashes = put d.name (virtual_device_hash tm d.name) ix.device_hashes;
          client_ids =
              if is_empty d.client_id then ix.client_ids else put d.client_id d.name ix.client_ids;
        })
        name
      ∙ rw (find-put d.name name (virtual_device_hash tm d.name) ix.device_hashes)
          (elim (Bool-cases (bytes_eq d.name name)) [
            | inl same ↦
                let e : d.name ≡ name = (bytes_eq_iff d.name name).0 same in
                rw same (
                  merged (names_device name devices)
                    (ap (λ (n : Bytes). some (virtual_device_hash tm n)) e))
            | inr other ↦ rw other refl
          ])

  with_time_known :
      (hashes : StringMap Bytes) (r : Route) (now : ℕ) (v : Value F) (ts : Option ℕ) (out : Reading)
      → with_time tm hashes r now v ts ≡ some out
      → (at : ℕ) × (ts ≡ some at) × (out ≡ mqtt_reading tm hashes r v (if at == 0 then now else at))
  with_time_known hashes r now v none out h = cc
  with_time_known hashes r now v (some at) out h = (at, refl, cc)

  with_value_known :
      (hashes : StringMap Bytes) (r : Route) (now : ℕ) (payload : Bytes) (v : Option (Value F))
      (out : Reading)
      → with_value tm hashes r now payload v ≡ some out
      → (w : Value F) × (v ≡ some w)
        × (check_data_type tm.formats w r.topic.data_type ≡ true)
        × (with_time tm hashes r now w (extract_timestamp tm r.source payload) ≡ some out)
  with_value_known hashes r now payload none out h = cc
  with_value_known hashes r now payload (some w) out h =
      elim (Bool-cases (check_data_type tm.formats w r.topic.data_type)) [
        | inl fits ↦ (w, refl, fits, rw fits at h)
        | inr other ↦ cc (rw other at h)
      ]

  -- What goes into the channel for a published payload, with the maps of a started broker and a route
  -- whose device the configuration names: the reading of that device, under its hash, with the value
  -- that the source extracts, which fits the data type of the topic, and the time of the payload, or the
  -- clock where the payload has none. A payload without such a value or time gives no reading.
  pub handle_mqtt_reading-start_mqtt_broker :
      (m : MqttConfig) (r : Route) (now : ℕ) (payload : Bytes) (out : Reading)
      → names_device r.device m.devices ≡ true
      → handle_mqtt_reading tm (start_mqtt_broker tm m).0.device_hashes r now payload ≡ some out
      → (v : Value F) × (at : ℕ) × (extract_value tm.formats r.source payload ≡ some v)
        × (extract_timestamp tm r.source payload ≡ some at)
        × (check_data_type tm.formats v r.topic.data_type ≡ true)
        × (out.device ≡ virtual_device_hash tm r.device)
        × (out.point_name ≡ r.topic.point_name)
        × (out.value ≡ serialize_value tm.formats.texts r.topic.data_type v)
        × (out.timestamp ≡ (if at == 0 then now else at))
  unfolding handle_mqtt_reading start_mqtt_broker
  handle_mqtt_reading-start_mqtt_broker m r now payload out named h =
      let hashes : StringMap Bytes =
        (index_devices tm m.devices
          (record { device_hashes = []; client_ids = [] })).device_hashes in
      let (v, extracted, fits, timed) =
        with_value_known hashes r now payload (extract_value tm.formats r.source payload) out h in
      let (at, time, same) =
        with_time_known hashes r now v (extract_timestamp tm r.source payload) out timed in
      let known : find r.device hashes ≡ some (virtual_device_hash tm r.device) =
        find-index_devices m.devices (record { device_hashes = []; client_ids = [] }) r.device
        ∙ rw named refl in
      (
        v,
        at,
        extracted,
        time,
        fits,
        ap (λ (x : Reading). x.device) same ∙ ap find_or_empty known,
        ap (λ (x : Reading). x.point_name) same,
        ap (λ (x : Reading). x.value) same,
        ap (λ (x : Reading). x.timestamp) same,
      )
