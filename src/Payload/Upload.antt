-- ===== src/Payload/Upload.antt =====
-- internal/msg/payload.go: the upload payload, a count and that many readings.
pub mod Laws
pub mod Accepted
use lepg.Base.{
  ℕ, zero, suc, ◌+◌, ◌/◌, ◌%◌, ◌^◌, List, [], ◌∷◌, ◌++◌, Bytes, length, ltb, if◌then◌else◌,
}
use lepg.Errors.{
  Result, ok, err, ◌>>=◌, string_field_too_long, payload_too_short, invalid_reading_count,
  truncated_string_length, truncated_string, truncated_id, truncated_quality, truncated_timestamp,
}
use lepg.Wire.{put_uint16, put_uint32, put_uint64, at, slice, uint16_at, uint32_at, uint64_at}
use lepg.Reading.{Reading}

pub record UploadPayload : Type 0 where
  pub readings : List Reading

-- `appendTLVString`, without the buffer that it appends to
unfoldable pub tlv_string : Bytes → Bytes
tlv_string s = put_uint16 (length s % 65536) ++ s

-- `readTLVString`: the string, and the new offset
unfoldable pub read_tlv_string : Bytes → ℕ → Result (Bytes × ℕ)
read_tlv_string input off =
    if ltb (length input) (off + 2)
    then err truncated_string_length
    else let n = uint16_at input off in
      if ltb (length input) (off + 2 + n)
      then err truncated_string
      else ok (slice input (off + 2) (off + 2 + n), off + 2 + n)

-- The least length of a reading on the wire: 8+2+2+2+2+2+2+1+2+8.
abbrev pub min_reading_len : ℕ
min_reading_len = 31

-- The strings of a reading, as the first pass of `Encode` visits them.
abbrev pub string_fields : Reading → List Bytes
string_fields r =
    r.device ∷ r.device_name ∷ r.point ∷ r.point_name ∷ r.data_type ∷ r.value ∷ r.unit ∷ []

-- The first pass of `Encode`: over the strings of one reading, and over the readings.
unfoldable pub check_strings : List Bytes → Result (Unit {0})
check_strings [] = ok tt
check_strings (s ∷ ss) =
    if ltb 65535 (length s) then err (string_field_too_long (length s)) else check_strings ss

unfoldable pub check_readings : List Reading → Result (Unit {0})
unfolding check_strings
check_readings [] = ok tt
check_readings (r ∷ rs) = check_strings (string_fields r) >>= λ _. check_readings rs

-- The second pass: one reading, and all of them.
unfoldable pub encode_reading : Reading → Bytes
encode_reading r =
    put_uint64 r.id
    ++ (tlv_string r.device
        ++ (tlv_string r.device_name
            ++ (tlv_string r.point
                ++ (tlv_string r.point_name
                    ++ (tlv_string r.data_type
                        ++ (tlv_string r.value
                            ++ ((r.quality % 256)
                                ∷ (tlv_string r.unit ++ put_uint64 r.timestamp))))))))

unfoldable pub encode_readings : List Reading → Bytes
encode_readings [] = []
encode_readings (r ∷ rs) = encode_reading r ++ encode_readings rs

unfoldable pub encode : UploadPayload → Result Bytes
encode p = do
  _ ← check_readings p.readings
  ok (put_uint32 (length p.readings % 2 ^ 32) ++ encode_readings p.readings)

unfoldable pub read_id : Bytes → ℕ → Result (ℕ × ℕ)
read_id input off =
    if ltb (length input) (off + 8) then err truncated_id else ok (uint64_at input off, off + 8)

unfoldable pub read_quality : Bytes → ℕ → Result (ℕ × ℕ)
read_quality input off =
    if ltb (length input) (off + 1) then err truncated_quality else ok (at input off, off + 1)

unfoldable pub read_timestamp : Bytes → ℕ → Result (ℕ × ℕ)
read_timestamp input off =
    if ltb (length input) (off + 8)
    then err truncated_timestamp
    else ok (uint64_at input off, off + 8)

-- One round of the loop of `Decode`.
unfoldable pub read_reading : Bytes → ℕ → Result (Reading × ℕ)
read_reading input off = do
  (id, off) ← read_id input off
  (device, off) ← read_tlv_string input off
  (device_name, off) ← read_tlv_string input off
  (point, off) ← read_tlv_string input off
  (point_name, off) ← read_tlv_string input off
  (data_type, off) ← read_tlv_string input off
  (value, off) ← read_tlv_string input off
  (quality, off) ← read_quality input off
  (unit, off) ← read_tlv_string input off
  (timestamp, off) ← read_timestamp input off
  ok (
    record {
      id = id;
      device = device;
      device_name = device_name;
      point = point;
      point_name = point_name;
      data_type = data_type;
      value = value;
      quality = quality;
      unit = unit;
      timestamp = timestamp;
    },
    off,
  )

-- The loop; the last argument is `p.Readings` so far.
unfoldable pub read_readings : ℕ → Bytes → ℕ → List Reading → Result (List Reading)
read_readings zero input off acc = ok acc
read_readings (suc n) input off acc = do
  (r, off') ← read_reading input off
  read_readings n input off' (acc ++ (r ∷ []))

unfoldable pub decode : Bytes → Result UploadPayload
decode input =
    if ltb (length input) 4
    then err (payload_too_short (length input))
    else let count = uint32_at input 0 in
      if ltb (length input / min_reading_len + 1) count
      then err (invalid_reading_count count)
      else (read_readings count input 4 [] >>= λ rs. ok (record { readings = rs }))
