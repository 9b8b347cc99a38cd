-- ===== src/Output.antt =====
-- internal/output: the configuration of an output, and the telemetry of ThingsBoard (formatter_tb.go).
-- The transports (MQTT, HTTP) and encoding/json are not modelled: the formatter gives the entries.
pub mod Format
pub mod Sinks
use lepg.Base.{
  ℕ, Bytes, StringMap, codes, bytes_eq, Bool, true, false, ◌||◌, List, [], ◌∷◌, Option, none, some,
  ◌≡◌, ◌⊎◌, refl, ap, arith, if◌then◌else◌, Bool-cases, inl, inr,
}
use lepg.Base.Int.{ℤ, pos, is_int}
use lepg.Config.ValidationError.{is_empty}

pub record OutputConfig : Type 0 where
  pub type : Bytes
  pub name : Bytes
  pub enabled : Bool
  pub host : Bytes
  pub port : ℤ
  pub qos : ℤ
  pub token : Bytes
  pub product_key : Bytes
  pub device_name : Bytes
  pub device_secret : Bytes
  pub username : Bytes
  pub password : Bytes
  pub scheme : Bytes
  pub url : Bytes
  pub headers : StringMap Bytes
  pub timeout : ℤ

pub data OutputError : Type 0 where
  name_required host_required token_required unknown_type : OutputError

-- `SinkThingsBoardMQTT`, `SinkThingsBoardHTTP`
abbrev pub is_sink_type : Bytes → Bool
is_sink_type t = bytes_eq t (codes "thingsboard-mqtt") || bytes_eq t (codes "thingsboard-http")

-- `if c.F == 0 { c.F = d }`
abbrev pub default_to : ℕ → ℤ → ℤ
default_to d n = if is_int n 0 then pos d else n

abbrev pub with_defaults : OutputConfig → OutputConfig
with_defaults c = record c {
  qos = default_to 1 c.qos;
  timeout = default_to 10 c.timeout;
  port = default_to 1883 c.port;
}

-- `(*OutputConfig).Validate`: the error, and the configuration with what it set
unfoldable pub validate_output : OutputConfig → Option OutputError × OutputConfig
validate_output c =
    if is_empty c.name
    then (some name_required, c)
    else if is_sink_type c.type
    then (if is_empty c.host
        then (some host_required, c)
        else if is_empty c.token
        then (some token_required, c)
        else (none, with_defaults c))
    else (some unknown_type, c)

default_to_twice : (d : ℕ) (n : ℤ) → default_to d (default_to d n) ≡ default_to d n
default_to_twice d n = elim (Bool-cases (is_int n 0)) [
  | inl unset ↦ rw unset (ground arith)
  | inr given ↦ rw given (rw given refl)
]

with_defaults_twice : (c : OutputConfig) → with_defaults (with_defaults c) ≡ with_defaults c
with_defaults_twice c =
    rw (default_to_twice 1 c.qos, default_to_twice 10 c.timeout, default_to_twice 1883 c.port) refl

-- The validation of an output that was validated changes nothing any more, and its error is the same.
pub validate_output-validate_output :
    (c : OutputConfig) → validate_output (validate_output c).1 ≡ validate_output c
unfolding validate_output
validate_output-validate_output c = elim (Bool-cases (is_empty c.name)) [
  | inl unnamed ↦ rw (unnamed, unnamed) refl
  | inr named ↦ elim (Bool-cases (is_sink_type c.type)) [
    | inr unknown ↦ rw (named, unknown, named, unknown) refl
    | inl known ↦ elim (Bool-cases (is_empty c.host)) [
      | inl hostless ↦ rw (named, known, hostless, named, known, hostless) refl
      | inr hosted ↦ elim (Bool-cases (is_empty c.token)) [
        | inl tokenless ↦ rw (named, known, hosted, tokenless, named, known, hosted, tokenless) refl
        | inr full ↦
            rw (named, known, hosted, full, named, known, hosted, full)
              (ap (λ (d : OutputConfig). (none, d)) (with_defaults_twice c))
      ]
    ]
  ]
]
