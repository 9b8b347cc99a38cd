-- ===== src/Tests/Gateway.antt =====
-- The broker and the buffer of readings of the gateway at concrete inputs.
use lepg.Base.{
  ℕ, ◌==◌, Bytes, codes, bytes_eq, true, false, List, [], ◌∷◌, none, some, find, ◌≡◌, refl, arith,
  if◌then◌else◌,
}
use mathlib.Core.Option
use lepg.Base.Int.{ℤ}
use lepg.Reading.{Reading}
use lepg.Model.Value.{Value, data_type_name, hash_point, serialize_value}
use lepg.Config.Device.{decimal_int}
use lepg.Config.ValidationError.{decimal}
use lepg.Broker.Text.{trim_space, split_on, cut_at, is_ts}
use lepg.Broker.Source.{kv_key}
use lepg.Broker.Extract.{
  Formats, kv_pairs, scalar, extract_kv_value, extract_value, check_data_type,
}
use lepg.Broker.Extract.Laws.{IsPair, extract_kv_value-pairs_text}
use lepg.Broker.Timestamps.{Times, extract_kv_timestamp, extract_timestamp}
use lepg.Broker.Routes.{
  Route, virtual_device_hash, index_devices, start_mqtt_broker, handle_mqtt_reading,
}
use lepg.Broker.Routes.Laws.{handle_mqtt_reading-start_mqtt_broker}
use lepg.Client.Consume.{Consumer, arrives, ctx_done, consume_and_write}
use lepg.Client.Consume.Laws.{held, content, held-consume_and_write}
use lepg.Tests.Numbers.{texts}
use lepg.Tests.Configs.{topic, broker}
use lepg.Tests.Data.{reading}

abbrev formats : Formats ℤ
formats = record { texts = texts; parse_json = λ s. none; is_integral = λ z. true }

abbrev times : Times ℤ
times = record {
  formats = formats;
  parse_object = λ s. none;
  is_large = λ z. false;
  to_int64 = λ z. 0;
  to_int64_thousand = λ z. 0;
  parse_int = λ s. none;
  parse_time = λ layout s. none;
}

abbrev pairs : List (Bytes × Bytes)
pairs = (codes "t", codes "21") ∷ (codes "h", codes "40") ∷ []

pairs-IsPair : IsPair (codes "t", codes "21") × (IsPair (codes "h", codes "40") × Unit {0})
pairs-IsPair = ground arith

extract_kv_value-pairs_text_example :
    extract_kv_value formats (codes "t=21;h=40") (codes "h")
    ≡ Option.map (scalar formats) (find (codes "h") pairs)
extract_kv_value-pairs_text_example =
    extract_kv_value-pairs_text formats pairs (codes "h") pairs-IsPair

abbrev route : Route
route = record { device = codes "room"; topic = topic; source = kv_key (codes "t") }

abbrev published : Reading
published = record {
  id = 0;
  device = codes "mqtt:roo";
  device_name = codes "room";
  point = codes "room:tem";
  point_name = codes "temperature";
  data_type = codes "float64";
  value = codes "21";
  quality = 0;
  unit = codes "C";
  timestamp = 1000;
}

handled :
    handle_mqtt_reading times
      (start_mqtt_broker times broker).0.device_hashes
      route
      1000
      (codes " t=21 ;h=40")
    ≡ some published
unfolding handle_mqtt_reading start_mqtt_broker index_devices virtual_device_hash extract_value
    extract_kv_value scalar kv_pairs split_on cut_at trim_space check_data_type extract_timestamp
    extract_kv_timestamp is_ts serialize_value hash_point data_type_name decimal_int decimal
    bytes_eq
handled = refl

handle_mqtt_reading-start_mqtt_broker_example :
    (v : Value ℤ) × (at : ℕ) × (extract_value formats (kv_key (codes "t")) (codes " t=21 ;h=40")
      ≡ some v)
    × (extract_timestamp times (kv_key (codes "t")) (codes " t=21 ;h=40") ≡ some at)
    × (check_data_type formats v topic.data_type ≡ true)
    × (published.device ≡ virtual_device_hash times (codes "room"))
    × (published.point_name ≡ topic.point_name)
    × (published.value ≡ serialize_value texts topic.data_type v)
    × (published.timestamp ≡ (if at == 0 then 1000 else at))
unfolding bytes_eq
handle_mqtt_reading-start_mqtt_broker_example =
    handle_mqtt_reading-start_mqtt_broker times broker route 1000 (codes " t=21 ;h=40") published
      refl handled

-- Two readings in batches of two; the first save fails.
abbrev empty : Consumer
empty = record { buffer = []; rows = []; next_id = 1; save_results = false ∷ []; returned = false }

held-consume_and_write_example :
    held (consume_and_write 2 (arrives reading ∷ arrives reading ∷ ctx_done ∷ []) empty)
    ≡ content reading ∷ content reading ∷ []
held-consume_and_write_example =
    held-consume_and_write 2 (arrives reading ∷ arrives reading ∷ ctx_done ∷ []) empty refl
