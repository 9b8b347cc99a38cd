-- ===== src/Model/Value.antt =====
-- internal/model/reading.go: the types of values and how a value becomes a text. The numbers, their
-- text (strconv) and SHA-256 (crypto/sha256) are parameters.
use lepg.Base.{ℕ, Bytes, codes, Bool, true, false, [], ◌++◌, Option, none, some, take}

pub data DataType : Type 0 where
  bool int16 uint16 int32 uint32 float32 float64 string json : DataType
  other_type : Bytes → DataType

-- The string behind the constant.
unfoldable pub data_type_name : DataType → Bytes
data_type_name bool = codes "bool"
data_type_name int16 = codes "int16"
data_type_name uint16 = codes "uint16"
data_type_name int32 = codes "int32"
data_type_name uint32 = codes "uint32"
data_type_name float32 = codes "float32"
data_type_name float64 = codes "float64"
data_type_name string = codes "string"
data_type_name json = codes "json"
data_type_name (other_type s) = s

-- `QualityGood`
abbrev pub quality_good : ℕ
quality_good = 0

-- A value of type `any`: a bool, a float64, a string, or another node of a JSON text.
mutual
  pub data Value (F : Type 0) : Type 0 where
    truth : Bool → Value F
    number : F → Value F
    text : Bytes → Value F
    null : Value F
    array : Items F → Value F
    object : Fields F → Value F

  pub data Items (F : Type 0) : Type 0 where
    end_items : Items F
    item : Value F → Items F → Items F

  pub data Fields (F : Type 0) : Type 0 where
    end_fields : Fields F
    field : Bytes → Value F → Fields F → Fields F

-- The functions of the standard library that the values pass through.
pub record Texts (F : Type 0) : Type 0 where
  -- `strconv.FormatFloat(f, 'g', -1, 64)`, `strconv.ParseFloat(s, 64)`, `strconv.ParseBool(s)`
  pub format_float : F → Bytes
  pub parse_float : Bytes → Option F
  pub parse_bool : Bytes → Option Bool
  -- `sha256.Sum256`, and `hex.EncodeToString`
  pub sha256 : Bytes → Bytes
  pub hex : Bytes → Bytes

-- `strconv.FormatBool`
abbrev pub format_bool : Bool → Bytes
format_bool true = codes "true"
format_bool false = codes "false"

module _ {F : Type 0} (t : Texts F) where
  -- `HashDevice`, `HashPoint`
  unfoldable pub hash_device : Bytes → Bytes
  hash_device name = t.hex (take 8 (t.sha256 name))

  unfoldable pub hash_point : Bytes → Bytes → Bytes
  hash_point device_name point_name =
      t.hex (take 8 (t.sha256 (device_name ++ codes ":" ++ point_name)))

  abbrev bool_text : Value F → Bytes
  bool_text (truth b) = format_bool b
  bool_text _ = []

  abbrev float_text : Value F → Bytes
  float_text (number f) = t.format_float f
  float_text _ = []

  abbrev json_text : Value F → Bytes
  json_text (text s) = s
  json_text _ = []

  -- `SerializeValue`: a value of another type than the named one becomes the empty string.
  unfoldable pub serialize_value : DataType → Value F → Bytes
  serialize_value bool v = bool_text v
  serialize_value int16 v = float_text v
  serialize_value uint16 v = float_text v
  serialize_value int32 v = float_text v
  serialize_value uint32 v = float_text v
  serialize_value float32 v = float_text v
  serialize_value float64 v = float_text v
  serialize_value json v = json_text v
  serialize_value string v = []
  serialize_value (other_type s) v = []

  abbrev truth_or : Option Bool → Option (Value F)
  truth_or none = none
  truth_or (some b) = some (truth b)

  abbrev number_or : Option F → Option (Value F)
  number_or none = none
  number_or (some f) = some (number f)

  -- `ParseValue`: every type but `bool` is a number.
  unfoldable pub parse_value : DataType → Bytes → Option (Value F)
  parse_value bool s = truth_or (t.parse_bool s)
  parse_value _ s = number_or (t.parse_float s)
