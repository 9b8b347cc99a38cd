-- ===== src/Tests/Configs.antt =====
-- Configurations of a gateway and of a server, a chain of providers, the values of a reading.
use lepg.Base.{Bytes, codes, bytes_eq, Bool, true, false, [], ◌∷◌, map, none, some, ◌≡◌, ◌↔◌, refl}
use lepg.Base.Int.{ℤ, pos}
use lepg.Model.Value.{
  bool, int16, uint16, int32, uint32, float32, float64, serialize_value, truth, number,
}
use lepg.Config.Mqtt.{TopicConfig, MqttDeviceConfig, MqttConfig, validate_source}
use lepg.Config.Client.{ClientConfig, configured, is_valid_level, new_config_validation_errors}
use lepg.Config.Server
use lepg.Config.Server.Laws.{output_sinks-init_server_config}
use lepg.Output.Sinks.{config_of, enabled_outputs, output_sinks}
use lepg.Config.Populate.{
  Provider, Sources, Tags, from_env, from_flag, string_kind, text, populate_field,
}
use lepg.Config.Populate.Laws.{populate_field_highest}
use lepg.Broker.Source.{SourceFormat, parse_source, HasPath, validate_source-parse_source}
use lepg.Output.{OutputConfig, with_defaults, validate_output}
use lepg.Output.Format.{
  Formatter, whole, value, parse_reading_value, IsExact, parse_reading_value-serialize_value,
}
use lepg.Tests.Devices.{device}

abbrev pub topic : TopicConfig
topic = record {
  topic = codes "room/1";
  qos = 1;
  point_name = codes "temperature";
  data_type = float64;
  source = codes "kv:t";
  unit = codes "C";
  retain = false;
}

abbrev pub room : MqttDeviceConfig
room = record {
  name = codes "room";
  client_id = codes "r1";
  username = [];
  password = [];
  keep_alive = pos 60;
  clean_session = true;
  offline_threshold = pos 30;
  enable_monitor = true;
  topics = topic ∷ [];
}

abbrev pub broker : MqttConfig
broker = record { broker_addr = codes ":1883"; devices = room ∷ [] }

-- The settings, before the tables are decoded.
abbrev settings : ClientConfig ℤ
settings = record {
  server_url = codes "example.org";
  port = pos 8883;
  log_level = codes "info";
  sn = codes "SN-1";
  token = codes "secret";
  max_retry = pos 10;
  retry_interval = pos 5000;
  buffer_size = pos 1000;
  upload_batch_size = pos 100;
  upload_interval = pos 5000;
  paths = record {
    log_path = codes "logs/";
    data_path = codes "data.db";
    log_max_size = pos 10;
    log_max_backups = pos 3;
    log_max_age = pos 28;
  };
  control_listen_addr = codes "127.0.0.1:9090";
  devices = [];
  mqtt = none;
}

abbrev complete : ClientConfig ℤ
complete = record settings { devices = device ∷ []; mqtt = some broker }

validate_source-parse_source_example :
    (validate_source (codes "json:") ≡ none)
    ↔ ((f : SourceFormat) × (parse_source (codes "json:") ≡ some f) × HasPath f)
validate_source-parse_source_example = validate_source-parse_source (codes "json:")

-- The environment and a flag give the key, and the flag counts.
abbrev given : Bytes → Provider
given s = record {
  source = from_flag;
  is_set = λ key. bytes_eq key (codes "server");
  get_string = λ key. s;
  get_int = λ key. pos 0;
  get_bool = λ key. false;
}

abbrev anywhere : Sources
anywhere = record { default = true; env = true; file = true; flag = true }

abbrev tags : Tags
tags = record { atoi = λ s. none; parse_bool = λ s. none }

populate_field_highest_example :
    populate_field tags string_kind
      (codes "server")
      anywhere
      []
      (record (given (codes "a.example")) { source = from_env } ∷ given (codes "b.example") ∷ [])
    ≡ text (codes "b.example")
unfolding bytes_eq
populate_field_highest_example =
    populate_field_highest tags string_kind (codes "server") anywhere [] (given (codes "b.example"))
      (record (given (codes "a.example")) { source = from_env } ∷ []) [] refl tt

-- Numbers as their texts.
abbrev printed : Formatter Bytes
printed = record {
  texts = record {
    format_float = λ s. s;
    parse_float = λ s. some s;
    parse_bool = λ s. none;
    sha256 = λ s. s;
    hex = λ s. s;
  };
  to_int64 = λ s. pos 0;
  parse_json = λ s. none;
}

printed-IsExact : IsExact printed
printed-IsExact = record { parses = λ s. refl }

parse_reading_value-serialize_value_example :
    ((b : Bool)
      → parse_reading_value printed bool (serialize_value printed.texts bool (truth b))
        ≡ some (value (truth b)))
    × ((f : Bytes)
        → (parse_reading_value printed float32 (serialize_value printed.texts float32 (number f))
            ≡ some (value (number f)))
          × (parse_reading_value printed float64 (serialize_value printed.texts float64 (number f))
              ≡ some (value (number f)))
          × (parse_reading_value printed int16 (serialize_value printed.texts int16 (number f))
              ≡ some (whole (pos 0)))
          × (parse_reading_value printed uint16 (serialize_value printed.texts uint16 (number f))
              ≡ some (whole (pos 0)))
          × (parse_reading_value printed int32 (serialize_value printed.texts int32 (number f))
              ≡ some (whole (pos 0)))
          × (parse_reading_value printed uint32 (serialize_value printed.texts uint32 (number f))
              ≡ some (whole (pos 0))))
parse_reading_value-serialize_value_example =
    parse_reading_value-serialize_value printed printed-IsExact

-- An output without a port, a time-out and a quality of service.
abbrev board : OutputConfig
board = record {
  type = codes "thingsboard-mqtt";
  name = codes "board";
  enabled = true;
  host = codes "tb.example";
  port = pos 0;
  qos = pos 0;
  token = codes "t";
  product_key = [];
  device_name = [];
  device_secret = [];
  username = [];
  password = [];
  scheme = [];
  url = [];
  headers = [];
  timeout = pos 0;
}

abbrev server_settings : Server.ServerConfig
server_settings = record {
  port = pos 8883;
  log_level = codes "info";
  log_path = [];
  data_path = [];
  log_max_size = pos 10;
  log_max_backups = pos 3;
  log_max_age = pos 28;
  mqtt = record { tcp_addr = []; ws_addr = [] };
  redis = record { addr = []; password = []; db = pos 0 };
  pg = record {
    host = codes "127.0.0.1";
    port = pos 5432;
    user = [];
    password = [];
    db_name = codes "lepgs";
    ssl_mode = [];
  };
  clients = [];
  outputs = [];
}

abbrev server_complete : Server.ServerConfig
server_complete = record server_settings { outputs = board ∷ [] }

server_accepted :
    Server.init_server_config (some server_settings) (some (some [], some (board ∷ [])))
    ≡ Server.configured server_complete
unfolding Server.init_server_config Server.validate_outputs validate_output Server.validate_server
    Server.server_errors new_config_validation_errors is_valid_level bytes_eq
server_accepted = refl

-- A stand-in for the printing of an int.
abbrev no_digits : ℤ → Bytes
no_digits n = []

output_sinks-init_server_config_example :
    (server_complete.outputs ≡ board ∷ [])
    × (map config_of (output_sinks no_digits server_complete.outputs)
        ≡ map with_defaults (enabled_outputs (board ∷ [])))
output_sinks-init_server_config_example =
    output_sinks-init_server_config no_digits server_settings server_complete [] (board ∷ [])
      server_accepted
