-- ===== src/Output/Format.antt =====
-- internal/output/formatter_tb.go: the telemetry entries of a device, and the values in them.
use lepg.Base.{
  ℕ, Bytes, codes, bytes_eq, Bool, true, false, List, [], ◌∷◌, Option, none, some, ◌≡◌, refl,
  if◌then◌else◌,
}
use lepg.Base.Int.{ℤ}
use lepg.Reading.{Reading}
use lepg.Model.Value.{
  DataType, bool, int16, uint16, int32, uint32, float32, float64, string, json, other_type, Value,
  truth, number, text, Texts, serialize_value, parse_value, format_bool, data_type_name,
}
use lepg.Config.ValidationError.{is_empty}

-- A value of an entry: an int64 stands by itself.
pub data Native (F : Type 0) : Type 0 where
  whole : ℤ → Native F
  value : Value F → Native F

-- What the formatter uses of the standard library: `int64(f)`, and `json.Unmarshal`.
pub record Formatter (F : Type 0) : Type 0 where
  pub texts : Texts F
  pub to_int64 : F → ℤ
  pub parse_json : Bytes → Option (Value F)

-- `tbTelemetryEntry` with its one value
pub record Entry (F : Type 0) : Type 0 where
  pub ts : ℕ
  pub key : Bytes
  pub entry_value : Native F

-- The constant that a string is, for the `switch` over the data type of a reading.
abbrev named : List DataType → Bytes → DataType
named [] s = other_type s
named (t ∷ types) s = if bytes_eq (data_type_name t) s then t else named types s

abbrev pub data_type_of : Bytes → DataType
data_type_of s =
    named (bool ∷ int16 ∷ uint16 ∷ int32 ∷ uint32 ∷ float32 ∷ float64 ∷ string ∷ json ∷ []) s

module _ {F : Type 0} (fm : Formatter F) where
  -- `int64(f), err` and `f, err`
  abbrev whole_of : Option (Value F) → Option (Native F)
  whole_of (some (number f)) = some (whole (fm.to_int64 f))
  whole_of _ = none

  abbrev number_of : Option (Value F) → Option (Native F)
  number_of (some v) = some (value v)
  number_of none = none

  abbrev json_of : Bytes → Option (Value F) → Native F
  json_of s (some v) = value v
  json_of s none = value (text s)

  -- `parseReadingValue`, by the data type of the reading
  unfoldable pub parse_reading_value : DataType → Bytes → Option (Native F)
  parse_reading_value bool s = some (value (truth (bytes_eq s (codes "true"))))
  parse_reading_value int16 s = whole_of (parse_value fm.texts int16 s)
  parse_reading_value uint16 s = whole_of (parse_value fm.texts uint16 s)
  parse_reading_value int32 s = whole_of (parse_value fm.texts int32 s)
  parse_reading_value uint32 s = whole_of (parse_value fm.texts uint32 s)
  parse_reading_value float32 s = number_of (parse_value fm.texts float32 s)
  parse_reading_value float64 s = number_of (parse_value fm.texts float64 s)
  parse_reading_value json s = some (json_of s (fm.parse_json s))
  parse_reading_value string s = some (value (text s))
  parse_reading_value (other_type t) s = some (value (text s))

  -- The name of the point, or its hash.
  abbrev pub entry_key : Reading → Bytes
  entry_key r = if is_empty r.point_name then r.point else r.point_name

  abbrev with_value :
      Reading → Option (Native F) → Option (List (Entry F)) → Option (List (Entry F))
  with_value r none rest = none
  with_value r (some v) none = none
  with_value r (some v) (some entries) =
      some (record { ts = r.timestamp; key = entry_key r; entry_value = v } ∷ entries)

  -- The loop of `Format`: one value that cannot be parsed is an error for all.
  unfoldable pub format_entries : List Reading → Option (List (Entry F))
  format_entries [] = some []
  format_entries (r ∷ readings) =
      with_value r (parse_reading_value (data_type_of r.data_type) r.value)
        (format_entries readings)

  abbrev for_device : Bytes → Option (List (Entry F)) → Option (Bytes × List (Entry F))
  for_device device_key none = none
  for_device device_key (some entries) = some (device_key, entries)

  -- `Format` up to `json.Marshal`
  unfoldable pub format : Bytes → List Reading → Option (Bytes × List (Entry F))
  format device_key [] = none
  format device_key (r ∷ readings) = for_device device_key (format_entries (r ∷ readings))

  -- What a float64 is that goes through strconv and back.
  pub record IsExact : Type 0 where
    pub parses : (f : F) → fm.texts.parse_float (fm.texts.format_float f) ≡ some f

  bool_back :
      (b : Bool)
      → ◌≡◌ {A = Option (Native F)}
          (some (value (truth (bytes_eq (format_bool b) (codes "true")))))
          (some (value (truth b)))
  unfolding bytes_eq
  bool_back true = refl
  bool_back false = refl

  -- Where strconv reads back what it has printed, the value that a gateway puts into a reading comes
  -- out of the formatter of the server: a bool and a float as they were, an integer type as its int64.
  pub parse_reading_value-serialize_value :
      IsExact
      → ((b : Bool)
          → parse_reading_value bool (serialize_value fm.texts bool (truth b))
            ≡ some (value (truth b)))
        × ((f : F)
            → (parse_reading_value float32 (serialize_value fm.texts float32 (number f))
                ≡ some (value (number f)))
              × (parse_reading_value float64 (serialize_value fm.texts float64 (number f))
                  ≡ some (value (number f)))
              × (parse_reading_value int16 (serialize_value fm.texts int16 (number f))
                  ≡ some (whole (fm.to_int64 f)))
              × (parse_reading_value uint16 (serialize_value fm.texts uint16 (number f))
                  ≡ some (whole (fm.to_int64 f)))
              × (parse_reading_value int32 (serialize_value fm.texts int32 (number f))
                  ≡ some (whole (fm.to_int64 f)))
              × (parse_reading_value uint32 (serialize_value fm.texts uint32 (number f))
                  ≡ some (whole (fm.to_int64 f))))
  unfolding parse_reading_value serialize_value parse_value
  parse_reading_value-serialize_value exact = (
    λ b. bool_back b,
    λ f.
        let e = exact.parses f in
        (rw e refl, rw e refl, rw e refl, rw e refl, rw e refl, rw e refl),
  )
