-- ===== src/Payload/Upload/Laws.antt =====
-- The upload payload read back.
use lepg.Base.{
  ℕ, ◌+◌, ◌*◌, ◌/◌, ◌%◌, ◌^◌, ◌<◌, ◌≤◌, ◌≡◌, refl, ap, sym, ◌∙◌, arith, List, [], ◌∷◌, ◌++◌,
  append_assoc, append-nil,
}
use lepg.Base.{Bytes, All, length, le→not_ltb, length-append}
use lepg.Errors.{ok, >>=-eq-ok, ok-injective}
use lepg.Wire.{at, put_uint16, put_uint32, put_uint64, uint16_at}
use lepg.Wire.Rest.{
  Rest, Rest-length, Rest-first, Rest-behind, Rest-slice, Rest-uint16, Rest-uint32, Rest-uint64,
}
use lepg.Reading.{Reading}
use lepg.Payload.Upload.{
  UploadPayload, tlv_string, read_tlv_string, read_id, read_quality, read_timestamp, read_reading,
  read_readings, encode_reading, encode_readings, check_strings, check_readings, string_fields,
  encode, decode,
}

-- The numbers of a reading fit their widths.
pub record IsReading (r : Reading) : Type 0 where
  pub id : r.id < 2 ^ 64
  pub quality : r.quality < 256
  pub timestamp : r.timestamp < 2 ^ 64

-- Every string of a reading fits its 16-bit length.
pub record IsShort (r : Reading) : Type 0 where
  pub device : length r.device < 65536
  pub device_name : length r.device_name < 65536
  pub point : length r.point < 65536
  pub point_name : length r.point_name < 65536
  pub data_type : length r.data_type < 65536
  pub value : length r.value < 65536
  pub unit : length r.unit < 65536

read_string :
    (input : Bytes) (off : ℕ) (s rest : Bytes)
    → length s < 65536
    → Rest input off (tlv_string s ++ rest)
    → (read_tlv_string input off ≡ ok (s, off + 2 + length s))
      × Rest input (off + 2 + length s) rest
unfolding read_tlv_string tlv_string
read_string input off s rest h r =
    let n : ℕ = length s in
    let m : ℕ = n % 65536 in
    let small : m ≡ n = omega arith in
    let whole : Rest input off (put_uint16 m ++ (s ++ rest)) =
      rw (← append_assoc (put_uint16 m) s rest) r in
    let text = Rest-behind input off 2 (put_uint16 m) (s ++ rest) refl whole in
    let behind = Rest-behind input (off + 2) n s rest refl text in
    let len : uint16_at input off ≡ n =
      omega (arith, Rest-uint16 input off m (s ++ rest) (omega arith) whole) in
    let size = Rest-length input (off + 2 + n) behind in
    (
      rw (
        le→not_ltb (length input) (off + 2) (omega arith),
        len,
        le→not_ltb (length input) (off + 2 + n) (omega arith),
        Rest-slice input (off + 2) n s rest refl text,
      ),
      behind,
    )

read_word :
    (input : Bytes) (off v : ℕ) (rest : Bytes)
    → v < 2 ^ 64
    → Rest input off (put_uint64 v ++ rest)
    → (read_id input off ≡ ok (v, off + 8))
      × (read_timestamp input off ≡ ok (v, off + 8))
      × Rest input (off + 8) rest
unfolding read_id read_timestamp
read_word input off v rest h r =
    let behind = Rest-behind input off 8 (put_uint64 v) rest refl r in
    let size = Rest-length input (off + 8) behind in
    let room = le→not_ltb (length input) (off + 8) (omega arith) in
    let value = Rest-uint64 input off v rest h r in (rw (room, value), rw (room, value), behind)

read_byte :
    (input : Bytes) (off v : ℕ) (rest : Bytes)
    → v < 256
    → Rest input off ((v % 256) ∷ rest)
    → (read_quality input off ≡ ok (v, off + 1)) × Rest input (off + 1) rest
unfolding read_quality
read_byte input off v rest h r =
    let behind = Rest-behind input off 1 ((v % 256) ∷ []) rest refl r in
    let size = Rest-length input (off + 1) behind in
    let value : at input off ≡ v = omega (arith, Rest-first input off r) in
    (rw (le→not_ltb (length input) (off + 1) (omega arith), value), behind)

pub encode_reading-append :
    (r : Reading) (rest : Bytes)
    → encode_reading r ++ rest
      ≡ put_uint64 r.id
        ++ (tlv_string r.device
            ++ (tlv_string r.device_name
                ++ (tlv_string r.point
                    ++ (tlv_string r.point_name
                        ++ (tlv_string r.data_type
                            ++ (tlv_string r.value
                                ++ ((r.quality % 256)
                                    ∷ (tlv_string r.unit ++ (put_uint64 r.timestamp ++ rest)))))))))
unfolding encode_reading
encode_reading-append r rest = simp append_assoc

-- One round of the loop reads one reading.
read_reading-encode :
    (input : Bytes) (off : ℕ) (r : Reading) (rest : Bytes)
    → IsReading r
    → IsShort r
    → Rest input off (encode_reading r ++ rest)
    → (off' : ℕ) × (read_reading input off ≡ ok (r, off')) × Rest input off' rest
unfolding read_reading
read_reading-encode input off r rest w s at_reading =
    let at_id = rw (encode_reading-append r rest) at at_reading in
    let (e0, _, at_device) = read_word input off r.id _ w.id at_id in
    let (e1, at_device_name) = read_string input _ r.device _ s.device at_device in
    let (e2, at_point) = read_string input _ r.device_name _ s.device_name at_device_name in
    let (e3, at_point_name) = read_string input _ r.point _ s.point at_point in
    let (e4, at_data_type) = read_string input _ r.point_name _ s.point_name at_point_name in
    let (e5, at_value) = read_string input _ r.data_type _ s.data_type at_data_type in
    let (e6, at_quality) = read_string input _ r.value _ s.value at_value in
    let (e7, at_unit) = read_byte input _ r.quality _ w.quality at_quality in
    let (e8, at_timestamp) = read_string input _ r.unit _ s.unit at_unit in
    let (_, e9, behind) = read_word input _ r.timestamp rest w.timestamp at_timestamp in
    (_, rw (e0, e1, e2, e3, e4, e5, e6, e7, e8, e9), behind)

read_readings-encode :
    (input : Bytes) (rs : List Reading) (off : ℕ) (acc : List Reading) (rest : Bytes)
    → All IsReading rs
    → All IsShort rs
    → Rest input off (encode_readings rs ++ rest)
    → read_readings (length rs) input off acc ≡ ok (acc ++ rs)
unfolding read_readings encode_readings
read_readings-encode input [] off acc rest w s r = rw append-nil
read_readings-encode input (x ∷ rs) off acc rest (wx, w) (sx, s) r =
    let (off', e, behind) =
      read_reading-encode input off x (encode_readings rs ++ rest) wx sx
        (rw (append_assoc (encode_reading x) (encode_readings rs) rest) at r) in
    rw e (
      read_readings-encode input rs off' (acc ++ (x ∷ [])) rest w s behind
      ∙ ap ok (append_assoc acc (x ∷ []) rs))

check_strings-short : (ss : List Bytes) → check_strings ss ≡ ok tt → All (λ s. length s < 65536) ss
unfolding check_strings
check_strings-short [] e = tt
check_strings-short (s ∷ ss) e = ground (arith, check_strings-short ss)

-- The first pass of `Encode` lets through exactly what fits.
check_readings-IsShort : (rs : List Reading) → check_readings rs ≡ ok tt → All IsShort rs
unfolding check_readings
check_readings-IsShort [] e = tt
check_readings-IsShort (r ∷ rs) e =
    let (u, first, others) = >>=-eq-ok (check_strings (string_fields r)) _ e in
    let s = check_strings-short (string_fields r) first in
    (omega arith, check_readings-IsShort rs others)

length-string : (s rest : Bytes) → 2 + length rest ≤ length (tlv_string s ++ rest)
unfolding tlv_string
length-string s rest = omega (arith, length-append s rest)

length-encode_reading : (r : Reading) → 31 ≤ length (encode_reading r)
unfolding encode_reading
length-encode_reading r =
    let unit : Bytes = tlv_string r.unit ++ put_uint64 r.timestamp in
    let value : Bytes = tlv_string r.value ++ ((r.quality % 256) ∷ unit) in
    let data_type : Bytes = tlv_string r.data_type ++ value in
    let point_name : Bytes = tlv_string r.point_name ++ data_type in
    let point : Bytes = tlv_string r.point ++ point_name in
    let device_name : Bytes = tlv_string r.device_name ++ point in
    omega (
      arith,
      length-string r.unit (put_uint64 r.timestamp),
      length-string r.value ((r.quality % 256) ∷ unit),
      length-string r.data_type value,
      length-string r.point_name data_type,
      length-string r.point point_name,
      length-string r.device_name point,
      length-string r.device device_name,
    )

length-encode_readings : (rs : List Reading) → 31 * length rs ≤ length (encode_readings rs)
unfolding encode_readings
length-encode_readings [] = omega arith
length-encode_readings (r ∷ rs) = omega (
  arith,
  length-encode_reading r,
  length-encode_readings rs,
  length-append (encode_reading r) (encode_readings rs),
)

-- `Decode` reads back what `Encode` wrote, whatever follows it: every reading, in order. The ids,
-- the qualities and the timestamps fit their widths, and the readings fit the 32-bit count.
pub decode-encode_upload :
    (p : UploadPayload) (rest bs : Bytes)
    → All IsReading p.readings
    → length p.readings < 2 ^ 32
    → encode p ≡ ok bs
    → decode (bs ++ rest) ≡ ok p
unfolding encode decode
decode-encode_upload p rest bs w fits e =
    let rs : List Reading = p.readings in
    let n : ℕ = length rs in
    let (u, checked, written) = >>=-eq-ok (check_readings rs) _ e in
    let input : Bytes = bs ++ rest in
    let small : n % 2 ^ 32 ≡ n = omega arith in
    let whole : Rest input 0 (put_uint32 n ++ (encode_readings rs ++ rest)) = record {
      inside = omega arith;
      left_there =
          ap (λ (t : Bytes). t ++ rest) (sym (ok-injective _ bs written))
          ∙ ap (λ (t : ℕ). put_uint32 t ++ (encode_readings rs ++ rest)) small;
    } in
    let at_readings =
      Rest-behind input 0 4 (put_uint32 n) (encode_readings rs ++ rest) refl whole in
    let size = Rest-length input 4 at_readings in
    let count = Rest-uint32 input 0 n (encode_readings rs ++ rest) fits whole in
    let enough = length-encode_readings rs in
    let total = length-append (encode_readings rs) rest in
    rw (
      le→not_ltb (length input) 4 (omega arith),
      count,
      le→not_ltb (length input / 31 + 1) n (omega arith),
      read_readings-encode input rs 4 [] rest w (check_readings-IsShort rs checked) at_readings,
    )
