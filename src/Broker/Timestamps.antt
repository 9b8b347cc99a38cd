-- ===== src/Broker/Timestamps.antt =====
-- internal/client/mqtt.go: the time that a payload carries. An int64 is its bits; 0 is no time.
use lepg.Base.{
  ℕ, ◌+◌, ◌-◌, ◌*◌, ◌%◌, ◌≤◌, ◌<◌, ◌≡◌, Bytes, codes, Bool, List, [], ◌∷◌, Option, none, some,
  arith, if◌then◌else◌,
}
use lepg.Base.Int.{ℤ, pos, negsuc, is_above}
use lepg.Model.Value.{Value, truth, number, text, null, array, object, Fields}
use lepg.Config.ValidationError.{is_empty}
use lepg.Broker.Text.{trim_space, is_ts}
use lepg.Broker.Source.{SourceFormat, json_path, kv_key, plain}
use lepg.Broker.Extract.{Formats, get_field, pairs_of}

-- What else of the standard library the times use.
pub record Times (F : Type 0) : Type 0 where
  pub formats : Formats F
  -- `json.Unmarshal` of a payload into a map
  pub parse_object : Bytes → Option (Fields F)
  -- `f > 1e12`, `int64(f)`, `int64(f * 1000)`
  pub is_large : F → Bool
  pub to_int64 : F → ℕ
  pub to_int64_thousand : F → ℕ
  -- `strconv.ParseInt(s, 10, 64)`
  pub parse_int : Bytes → Option ℤ
  -- `time.Parse(layout, s)`, and `UnixMilli`
  pub parse_time : Bytes → Bytes → Option ℕ

abbrev pub word64 : ℕ
word64 = 18446744073709551616

abbrev pub int64_bits : ℤ → ℕ
int64_bits (pos n) = n % word64
int64_bits (negsuc n) = (word64 - (n + 1) % word64) % word64

abbrev thousand : ℤ → ℕ
thousand (pos n) = n * 1000 % word64
thousand (negsuc n) = (word64 - (n + 1) * 1000 % word64) % word64

-- A number of the text: milliseconds above 1e12, else seconds.
unfoldable pub millis_of : ℤ → ℕ
millis_of n = if is_above n 1000000000000 then int64_bits n else thousand n

abbrev layouts : List Bytes
layouts =
    codes "2006-01-02T15:04:05Z07:00"
    ∷ codes "2006-01-02T15:04:05.999999999Z07:00"
    ∷ codes "2006-01-02T15:04:05Z07:00"
    ∷ codes "2006-01-02 15:04:05"
    ∷ codes "2006-01-02T15:04:05"
    ∷ codes "2006/01/02 15:04:05"
    ∷ []

module _ {F : Type 0} (tm : Times F) where
  unfoldable pub first_time : List Bytes → Bytes → Option ℕ
  first_time [] s = none
  first_time (layout ∷ more) s = elim (tm.parse_time layout s) [
    | some t ↦ some t
    | none ↦ first_time more s
  ]

  abbrev number_or_time : Bytes → Option ℤ → Option ℕ
  number_or_time s (some n) = some (millis_of n)
  number_or_time s none = first_time layouts s

  -- `detectTimestampString`; `none` is an error
  unfoldable pub detect_timestamp_string : Bytes → Option ℕ
  detect_timestamp_string text_of =
      let s : Bytes = trim_space text_of in
      if is_empty s then some 0 else number_or_time s (tm.parse_int s)

  -- `detectTimestamp`
  unfoldable pub detect_timestamp : Value F → Option ℕ
  detect_timestamp (number f) =
      some (if tm.is_large f then tm.to_int64 f else tm.to_int64_thousand f)
  detect_timestamp (text s) = detect_timestamp_string s
  detect_timestamp (truth b) = none
  detect_timestamp null = none
  detect_timestamp (array items) = none
  detect_timestamp (object fields) = none

  unfoldable pub first_name : List Bytes → Fields F → Option ℕ
  first_name [] fields = some 0
  first_name (name ∷ names) fields = elim (get_field name fields) [
    | some v ↦ detect_timestamp v
    | none ↦ first_name names fields
  ]

  -- `extractJSONTimestamp`
  unfoldable pub extract_json_timestamp : Bytes → Option ℕ
  extract_json_timestamp payload = elim (tm.parse_object payload) [
    | none ↦ some 0
    | some fields ↦ first_name (codes "ts" ∷ codes "timestamp" ∷ codes "time" ∷ []) fields
  ]

  abbrev first_ts : List (Bytes × Bytes) → Option ℕ
  first_ts [] = some 0
  first_ts ((k, v) ∷ pairs) = if is_ts k then detect_timestamp_string v else first_ts pairs

  -- `extractKVTimestamp`
  unfoldable pub extract_kv_timestamp : Bytes → Option ℕ
  extract_kv_timestamp payload = first_ts (pairs_of payload)

  -- `extractTimestamp`
  unfoldable pub extract_timestamp : SourceFormat → Bytes → Option ℕ
  extract_timestamp (json_path path) payload = extract_json_timestamp payload
  extract_timestamp (kv_key key) payload = extract_kv_timestamp payload
  extract_timestamp plain payload = some 0

-- A number of a text that is not negative and that an int64 holds becomes a time without overflow: the
-- number itself above 1e12, and a thousand times the number else.
pub millis_of_exact :
    (n : ℕ)
    → n < 9223372036854775808
    → (1000000000000 < n → millis_of (pos n) ≡ n)
      × (n ≤ 1000000000000 → millis_of (pos n) ≡ n * 1000)
unfolding millis_of
millis_of_exact n h = (λ above. ground arith, λ below. ground arith)
