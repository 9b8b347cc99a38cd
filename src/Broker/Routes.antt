-- ===== src/Broker/Routes.antt =====
-- internal/client/mqtt.go: what `StartMqttBroker` sets up, what a published payload does
-- (`handleMqttReading`) and what the end of a client's session does (`OnDisconnect`). The server of
-- the MQTT library, which calls these, is not modelled.
pub mod Laws
use lepg.Base.{
  ℕ, ◌%◌, Bytes, codes, bytes_eq, Bool, true, false, List, [], ◌∷◌, ◌++◌, take, length, Option,
  none, some, ltb, ◌==◌, StringMap, find, put, if◌then◌else◌,
}
use lepg.Reading.{Reading}
use lepg.Payload.Notify.{NotifyPayload}
use lepg.Model.Value.{Value, Texts, hash_point, serialize_value, data_type_name, quality_good}
use lepg.Config.ValidationError.{is_empty}
use lepg.Config.Mqtt.{TopicConfig, MqttDeviceConfig, MqttConfig}
use lepg.Broker.Source.{SourceFormat, parse_source}
use lepg.Broker.Extract.{Formats, extract_value, check_data_type}
use lepg.Broker.Timestamps.{Times, extract_timestamp}

-- A subscription: the name of its device, its topic and the source of its values.
pub record Route : Type 0 where
  pub device : Bytes
  pub topic : TopicConfig
  pub source : SourceFormat

-- The two maps that are computed before the subscriptions.
pub record Indexes : Type 0 where
  pub device_hashes : StringMap Bytes
  pub client_ids : StringMap Bytes

abbrev pub notify_queue_size : ℕ
notify_queue_size = 32

-- `m[key]`, the empty string where the key is missing
abbrev pub find_or_empty : Option Bytes → Bytes
find_or_empty none = []
find_or_empty (some s) = s

-- The subscriptions of a device, and of all devices: the first source that cannot be parsed ends the
-- broker (`none`).
abbrev add_route :
    Bytes → TopicConfig → Option SourceFormat → Option (List Route) → Option (List Route)
add_route device t none rest = none
add_route device t (some f) none = none
add_route device t (some f) (some routes) =
    some (record { device = device; topic = t; source = f } ∷ routes)

unfoldable pub topic_routes : Bytes → List TopicConfig → Option (List Route)
topic_routes device [] = some []
topic_routes device (t ∷ topics) =
    add_route device t (parse_source t.source) (topic_routes device topics)

abbrev append_routes : Option (List Route) → Option (List Route) → Option (List Route)
append_routes none rest = none
append_routes (some routes) none = none
append_routes (some routes) (some more) = some (routes ++ more)

unfoldable pub device_routes : List MqttDeviceConfig → Option (List Route)
device_routes [] = some []
device_routes (d ∷ devices) = append_routes (topic_routes d.name d.topics) (device_routes devices)

module _ {F : Type 0} (tm : Times F) where
  -- `virtualDeviceHash`: `%x` prints what `hex.EncodeToString` does.
  unfoldable pub virtual_device_hash : Bytes → Bytes
  virtual_device_hash name =
      tm.formats.texts.hex (take 8 (tm.formats.texts.sha256 (codes "mqtt:" ++ name)))

  -- The loop that fills the maps.
  unfoldable pub index_devices : List MqttDeviceConfig → Indexes → Indexes
  index_devices [] ix = ix
  index_devices (d ∷ devices) ix = index_devices devices (record {
    device_hashes = put d.name (virtual_device_hash d.name) ix.device_hashes;
    client_ids =
        if is_empty d.client_id then ix.client_ids else put d.client_id d.name ix.client_ids;
  })

  -- `StartMqttBroker` up to the goroutine: the maps and the subscriptions
  unfoldable pub start_mqtt_broker : MqttConfig → Indexes × Option (List Route)
  start_mqtt_broker m = (
    index_devices m.devices (record { device_hashes = []; client_ids = [] }),
    device_routes m.devices,
  )

  abbrev pub mqtt_reading : StringMap Bytes → Route → Value F → ℕ → Reading
  mqtt_reading hashes r v ts = record {
    id = 0;
    device = find_or_empty (find r.device hashes);
    device_name = r.device;
    point = hash_point tm.formats.texts r.device r.topic.point_name;
    point_name = r.topic.point_name;
    data_type = data_type_name r.topic.data_type;
    value = serialize_value tm.formats.texts r.topic.data_type v;
    quality = quality_good;
    unit = r.topic.unit;
    timestamp = ts;
  }

  abbrev with_time : StringMap Bytes → Route → ℕ → Value F → Option ℕ → Option Reading
  with_time hashes r now v none = none
  with_time hashes r now v (some ts) = some (mqtt_reading hashes r v (if ts == 0 then now else ts))

  abbrev with_value : StringMap Bytes → Route → ℕ → Bytes → Option (Value F) → Option Reading
  with_value hashes r now payload none = none
  with_value hashes r now payload (some v) =
      if check_data_type tm.formats v r.topic.data_type
      then with_time hashes r now v (extract_timestamp tm r.source payload)
      else none

  -- `handleMqttReading` at the time `now`: the reading that goes into the channel
  unfoldable pub handle_mqtt_reading : StringMap Bytes → Route → ℕ → Bytes → Option Reading
  handle_mqtt_reading hashes r now payload =
      with_value hashes r now payload (extract_value tm.formats r.source payload)

-- `severity`, and the event code of a device that went away
abbrev pub offline_notice : Bytes → ℕ → NotifyPayload
offline_notice device_hash now = record {
  event_code = 0x02;
  device_hash = device_hash;
  timestamp = now % 4294967296;
  severity = 0;
  message = codes "device offline";
  raw_data = [];
}

abbrev offer : NotifyPayload → List NotifyPayload → List NotifyPayload
offer p queue = if ltb (length queue) notify_queue_size then queue ++ p ∷ [] else queue

abbrev notify_for : Indexes → ℕ → Option Bytes → List NotifyPayload → List NotifyPayload
notify_for ix now none queue = queue
notify_for ix now (some name) queue =
    offer (offline_notice (find_or_empty (find name ix.device_hashes)) now) queue

-- `OnDisconnect` at the Unix time `now`, on the channel of notifications: only a session that expired
unfoldable pub on_disconnect : Indexes → Bytes → Bool → ℕ → List NotifyPayload → List NotifyPayload
on_disconnect ix client_id expire now queue =
    if expire then notify_for ix now (find client_id ix.client_ids) queue else queue
