-- ===== src/Broker/Extract.antt =====
-- internal/client/mqtt.go: the value in a payload (`extractValue` and the functions of the three
-- formats) and its type. strconv and encoding/json are parameters.
pub mod Laws
use lepg.Base.{
  ℕ, Bytes, bytes_eq, Bool, true, false, List, [], ◌∷◌, Option, none, some, if◌then◌else◌,
}
use lepg.Model.Value.{
  DataType, bool, int16, uint16, int32, uint32, float32, float64, string, json, other_type, Value,
  truth, number, text, object, Fields, end_fields, field, Texts,
}
use lepg.Config.ValidationError.{is_empty}
use lepg.Broker.Text.{trim_space, split_on, cut_at}
use lepg.Broker.Source.{SourceFormat, json_path, kv_key, plain}

-- What the broker uses of the standard library besides the texts of values.
pub record Formats (F : Type 0) : Type 0 where
  pub texts : Texts F
  -- `json.Unmarshal` of a payload
  pub parse_json : Bytes → Option (Value F)
  -- `f == math.Trunc(f)`
  pub is_integral : F → Bool

-- The last field of the name counts: a JSON object as Go's map.
abbrev pub get_field : {F : Type 0} → Bytes → Fields F → Option (Value F)
get_field name end_fields = none
get_field name (field n v fields) = elim (get_field name fields) [
  | some w ↦ some w
  | none ↦ if bytes_eq n name then some v else none
]

-- `string(payload)` cut into the texts between ";" that have a "=": the keys, trimmed, and the texts
-- behind them, trimmed
abbrev pub pair_of : Option (Bytes × Bytes) → List (Bytes × Bytes) → List (Bytes × Bytes)
pair_of none rest = rest
pair_of (some (k, v)) rest = (trim_space k, trim_space v) ∷ rest

unfoldable pub kv_pairs : List Bytes → List (Bytes × Bytes)
kv_pairs [] = []
kv_pairs (part ∷ parts) =
    let pair : Bytes = trim_space part in
    let rest = kv_pairs parts in if is_empty pair then rest else pair_of (cut_at b'=' pair) rest

abbrev pub pairs_of : Bytes → List (Bytes × Bytes)
pairs_of payload = kv_pairs (split_on b';' (trim_space payload))

module _ {F : Type 0} (fm : Formats F) where
  -- A number first, then a bool, then a string.
  abbrev bool_or : Bytes → Option Bool → Value F
  bool_or s (some b) = truth b
  bool_or s none = text s

  abbrev number_or : Bytes → Option F → Value F
  number_or s (some f) = number f
  number_or s none = bool_or s (fm.texts.parse_bool s)

  unfoldable pub scalar : Bytes → Value F
  scalar s = number_or s (fm.texts.parse_float s)

  -- The walk of `extractJSONValue` along the parts of the path.
  abbrev step_into : Bytes → Value F → Option (Value F)
  step_into part (object fields) = get_field part fields
  step_into part _ = none

  unfoldable pub walk : List Bytes → Value F → Option (Value F)
  walk [] current = some current
  walk (part ∷ parts) current = elim (step_into part current) [
    | some v ↦ walk parts v
    | none ↦ none
  ]

  -- `extractJSONValue`
  unfoldable pub extract_json_value : Bytes → Bytes → Option (Value F)
  extract_json_value payload path = elim (fm.parse_json payload) [
    | some root ↦ walk (split_on b'.' path) root
    | none ↦ none
  ]

  -- `extractPlainValue`
  unfoldable pub extract_plain_value : Bytes → Option (Value F)
  extract_plain_value payload =
      let s : Bytes = trim_space payload in if is_empty s then none else some (scalar s)

  abbrev lookup_pair : Bytes → List (Bytes × Bytes) → Option (Value F)
  lookup_pair key [] = none
  lookup_pair key ((k, v) ∷ pairs) =
      if bytes_eq k key then some (scalar v) else lookup_pair key pairs

  -- `extractKVValue`
  unfoldable pub extract_kv_value : Bytes → Bytes → Option (Value F)
  extract_kv_value payload key = lookup_pair key (pairs_of payload)

  -- `extractValue`; `none` is an error
  unfoldable pub extract_value : SourceFormat → Bytes → Option (Value F)
  extract_value (json_path path) payload = extract_json_value payload path
  extract_value plain payload = extract_plain_value payload
  extract_value (kv_key key) payload = extract_kv_value payload key

  abbrev is_number : Value F → Bool
  is_number (number f) = true
  is_number _ = false

  abbrev is_whole : Value F → Bool
  is_whole (number f) = fm.is_integral f
  is_whole _ = false

  abbrev is_truth : Value F → Bool
  is_truth (truth b) = true
  is_truth _ = false

  abbrev is_text : Value F → Bool
  is_text (text s) = true
  is_text _ = false

  -- `checkDataType`: does the value fit? Another type than those of the `switch` takes everything.
  unfoldable pub check_data_type : Value F → DataType → Bool
  check_data_type v float32 = is_number v
  check_data_type v float64 = is_number v
  check_data_type v int16 = is_whole v
  check_data_type v uint16 = is_whole v
  check_data_type v int32 = is_whole v
  check_data_type v uint32 = is_whole v
  check_data_type v bool = is_truth v
  check_data_type v string = is_text v
  check_data_type v json = true
  check_data_type v (other_type s) = true
