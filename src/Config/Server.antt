-- ===== src/Config/Server.antt =====
-- internal/server/config.go: the server's configuration, its validation and `InitServerConfig`. What
-- `PopulateFromProvider` filled in and what `Unmarshal` decoded are parameters.
pub mod Laws
use lepg.Base.{
  ℕ, Bytes, codes, Bool, true, false, ◌||◌, List, [], ◌∷◌, Option, none, some, if◌then◌else◌,
}
use lepg.Base.Int.{ℤ, is_not_positive, is_above}
use lepg.Server.World.{ClientDef}
use lepg.Config.ValidationError.{is_empty}
use lepg.Config.Client.{
  SettingError, invalid, ValidationErrors, no_error, one_error, all_errors,
  new_config_validation_errors, is_valid_level, add_if,
}
use lepg.Output.{OutputConfig, OutputError, validate_output}

pub record MqttConfig : Type 0 where
  pub tcp_addr : Bytes
  pub ws_addr : Bytes

pub record RedisConfig : Type 0 where
  pub addr : Bytes
  pub password : Bytes
  pub db : ℤ

pub record PgConfig : Type 0 where
  pub host : Bytes
  pub port : ℤ
  pub user : Bytes
  pub password : Bytes
  pub db_name : Bytes
  pub ssl_mode : Bytes

pub record ServerConfig : Type 0 where
  pub port : ℤ
  pub log_level : Bytes
  pub log_path : Bytes
  pub data_path : Bytes
  pub log_max_size : ℤ
  pub log_max_backups : ℤ
  pub log_max_age : ℤ
  pub mqtt : MqttConfig
  pub redis : RedisConfig
  pub pg : PgConfig
  pub clients : List ClientDef
  pub outputs : List OutputConfig

-- The errors that `Validate` collects, in its order.
unfoldable pub server_errors : ServerConfig → List SettingError
server_errors c =
    add_if (is_not_positive c.port || is_above c.port 65535)
      (invalid (codes "port") (codes "must be 1-65535"))
      (add_if (if is_valid_level c.log_level then false else true)
        (invalid (codes "log_level") (codes "must be debug/info/warn/error"))
        (add_if (is_empty c.pg.host) (invalid (codes "pg_host") (codes "cannot be empty")) (
          add_if (is_empty c.pg.db_name) (invalid (codes "pg_dbname") (codes "cannot be empty"))
            [])))

-- `(*ServerConfig).Validate`
unfoldable pub validate_server : ServerConfig → ValidationErrors
validate_server c = new_config_validation_errors (server_errors c)

-- `for _, o := range cfg.Outputs`: each round validates a copy, so what the validation sets is dropped.
abbrev first_error : Option OutputError → Option OutputError → Option OutputError
first_error (some e) rest = some e
first_error none rest = rest

unfoldable pub validate_outputs : List OutputConfig → Option OutputError
validate_outputs [] = none
validate_outputs (o ∷ outputs) = first_error (validate_output o).0 (validate_outputs outputs)

pub data InitError : Type 0 where
  populate_failed unmarshal_clients_failed unmarshal_outputs_failed : InitError
  output_invalid : OutputError → InitError
  settings_invalid : ValidationErrors → InitError

pub data Init : Type 0 where
  refused : InitError → Init
  configured : ServerConfig → Init

abbrev check_settings : ServerConfig → ValidationErrors → Init
check_settings c no_error = configured c
check_settings c errs = refused (settings_invalid errs)

abbrev check_outputs : ServerConfig → Option OutputError → Init
check_outputs c (some e) = refused (output_invalid e)
check_outputs c none = check_settings c (validate_server c)

-- What the two calls of `Unmarshal` give, `none` for an error.
abbrev decode : Option (List ClientDef) → Option (List OutputConfig) → ServerConfig → Init
decode none outputs c = refused unmarshal_clients_failed
decode (some clients) none c = refused unmarshal_outputs_failed
decode (some clients) (some outputs) c =
    let c' : ServerConfig = record c { clients = clients; outputs = outputs } in
    check_outputs c' (validate_outputs outputs)

abbrev decode_nested :
    Option (Option (List ClientDef) × Option (List OutputConfig)) → ServerConfig → Init
decode_nested none c = check_outputs c (validate_outputs c.outputs)
decode_nested (some (clients, outputs)) c = decode clients outputs c

-- `InitServerConfig`: `none` for an error of `PopulateFromProvider`, and for a provider that cannot decode
unfoldable pub init_server_config :
    Option ServerConfig → Option (Option (List ClientDef) × Option (List OutputConfig)) → Init
init_server_config none nested = refused populate_failed
init_server_config (some c) nested = decode_nested nested c
