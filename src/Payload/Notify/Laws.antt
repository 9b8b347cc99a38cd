-- ===== src/Payload/Notify/Laws.antt =====
-- The notification payload read back, and where its decoder cannot return it.
use lepg.Base.{ℕ, ◌+◌, ◌%◌, ◌^◌, ◌<◌, ◌≤◌, ◌≡◌, ◌≢◌, refl, arith, [], ◌∷◌, ◌++◌, append_assoc}
use lepg.Base.{Bytes, IsBytes, length, le→not_ltb, length-append}
use lepg.Errors.{ok}
use lepg.Wire.{at, put_uint16, put_uint32, uint16_at}
use lepg.Wire.Laws.{byte_at}
use lepg.Wire.Rest.{
  Rest, Rest-length, Rest-at, Rest-first, Rest-behind, Rest-slice, Rest-uint16, Rest-uint32,
  length-slice,
}
use lepg.Payload.Notify.{
  NotifyPayload, encode, decode, decode_message, decode_raw_data, zero_payload,
}

-- The bytes from the raw data on, and from the fixed block on.
abbrev raw_part : NotifyPayload → Bytes → Bytes
raw_part p rest = put_uint16 (length p.raw_data % 65536) ++ (p.raw_data ++ rest)

abbrev message_part : NotifyPayload → Bytes → Bytes
message_part p rest =
    put_uint32 p.timestamp ++ (p.severity ∷ length p.message ∷ (p.message ++ raw_part p rest))

abbrev pub encoded : NotifyPayload → Bytes
encoded p =
    p.event_code
    ∷ length p.device_hash
    ∷ (p.device_hash
        ++ (put_uint32 p.timestamp
            ++ (p.severity
                ∷ length p.message
                ∷ (p.message ++ (put_uint16 (length p.raw_data % 65536) ++ p.raw_data)))))

pub encode-eq-ok_notify :
    (p : NotifyPayload) (bs : Bytes)
    → encode p ≡ ok bs
    → (length p.device_hash ≤ 255) × (length p.message ≤ 255) × (bs ≡ encoded p)
unfolding encode
encode-eq-ok_notify p bs e = ground arith

raw_data-part :
    (p q : NotifyPayload) (input : Bytes) (off : ℕ) (rest : Bytes)
    → length p.raw_data < 65536
    → Rest input off (raw_part p rest)
    → decode_raw_data input off q ≡ ok (record q { raw_data = p.raw_data })
unfolding decode_raw_data
raw_data-part p q input off rest h r =
    let n : ℕ = length p.raw_data in
    let m : ℕ = n % 65536 in
    let text = Rest-behind input off 2 (put_uint16 m) (p.raw_data ++ rest) refl r in
    let behind = Rest-behind input (off + 2) n p.raw_data rest refl text in
    let len : uint16_at input off ≡ n =
      omega (arith, Rest-uint16 input off m (p.raw_data ++ rest) (omega arith) r) in
    let size = Rest-length input (off + 2 + n) behind in
    rw (
      le→not_ltb (length input) (off + 2) (omega arith),
      len,
      le→not_ltb (length input) (off + 2 + n) (omega arith),
      Rest-slice input (off + 2) n p.raw_data rest refl text,
    )

message-part :
    (p q : NotifyPayload) (input : Bytes) (off : ℕ) (rest : Bytes)
    → p.timestamp < 2 ^ 32
    → length p.raw_data < 65536
    → Rest input off (message_part p rest)
    → decode_message input off q
      ≡ ok (record q {
        timestamp = p.timestamp;
        severity = p.severity;
        message = p.message;
        raw_data = p.raw_data;
      })
unfolding decode_message
message-part p q input off rest ht h r =
    let n : ℕ = length p.message in
    let tail : Bytes = p.message ++ raw_part p rest in
    let time = Rest-uint32 input off p.timestamp (p.severity ∷ n ∷ tail) ht r in
    let level : at input (off + 4) ≡ p.severity = Rest-at input off 4 r in
    let len : at input (off + 5) ≡ n = Rest-at input off 5 r in
    let text =
      Rest-behind input off 6 (put_uint32 p.timestamp ++ (p.severity ∷ n ∷ [])) tail refl r in
    let behind = Rest-behind input (off + 6) n p.message (raw_part p rest) refl text in
    let size = Rest-length input (off + 6 + n) behind in
    rw
      (
        le→not_ltb (length input) (off + 6) (omega arith),
        len,
        le→not_ltb (length input) (off + 6 + n) (omega arith),
        time,
        level,
        Rest-slice input (off + 6) n p.message (raw_part p rest) refl text,
      )
      (raw_data-part p
        (record q { timestamp = p.timestamp; severity = p.severity; message = p.message }) input
        (off + 6 + n) rest h behind)

-- `Decode` reads back what `Encode` wrote, whatever follows it, for a 32-bit timestamp and raw data
-- shorter than 65536 bytes.
pub decode-encode_notify :
    (p : NotifyPayload) (rest bs : Bytes)
    → p.timestamp < 2 ^ 32
    → length p.raw_data < 65536
    → encode p ≡ ok bs
    → decode (bs ++ rest) ≡ ok p
unfolding decode
decode-encode_notify p rest bs ht h e =
    let (_, _, bytes) = encode-eq-ok_notify p bs e in
    let n : ℕ = length p.device_hash in
    let input : Bytes = bs ++ rest in
    let whole : Rest input 0 (p.event_code ∷ n ∷ (p.device_hash ++ message_part p rest)) = record {
      inside = omega arith;
      left_there = rw (bytes) (simp append_assoc);
    } in
    let at_hash =
      Rest-behind input 0 2 (p.event_code ∷ n ∷ []) (p.device_hash ++ message_part p rest) refl
        whole in
    let behind = Rest-behind input 2 n p.device_hash (message_part p rest) refl at_hash in
    let size = Rest-length input (2 + n) behind in
    let long : 8 ≤ length (message_part p rest) =
      omega (arith, length-append p.message (raw_part p rest)) in
    let len : at input 1 ≡ n = Rest-at input 0 1 whole in
    rw
      (
        le→not_ltb (length input) 10 (omega arith),
        len,
        le→not_ltb (length input) (2 + n) (omega arith),
        Rest-first input 0 whole,
        Rest-slice input 2 n p.device_hash (message_part p rest) refl at_hash,
      )
      (message-part p
        (record zero_payload { event_code = p.event_code; device_hash = p.device_hash }) input
        (2 + n) rest ht h behind)

raw_data-lt :
    (input : Bytes) (off : ℕ) (p q : NotifyPayload)
    → IsBytes input
    → decode_raw_data input off p ≡ ok q
    → length q.raw_data < 65536
unfolding decode_raw_data
raw_data-lt input off p q h e = ground (
  arith,
  byte_at input off h,
  byte_at input (off + 1) h,
  length-slice input (off + 2) (uint16_at input off),
)

decode_message-raw_data-lt :
    (input : Bytes) (off : ℕ) (p q : NotifyPayload)
    → IsBytes input
    → decode_message input off p ≡ ok q
    → length q.raw_data < 65536
unfolding decode_message
decode_message-raw_data-lt input off p q h e = grind (arith, raw_data-lt input)

decode-raw_data-lt :
    (input : Bytes) (q : NotifyPayload)
    → IsBytes input
    → decode input ≡ ok q
    → length q.raw_data < 65536
unfolding decode
decode-raw_data-lt input q h e = grind (arith, decode_message-raw_data-lt input)

encode_short :
    (p : NotifyPayload)
    → length p.device_hash ≤ 255
    → length p.message ≤ 255
    → encode p ≡ ok (encoded p)
unfolding encode
encode_short p hd hm = ground arith

-- Raw data of 65536 bytes and more is written with its length cut to 16 bits and is lost: `Encode`
-- reports no error, and no bytes decode to the payload.
pub decode-ne_long_raw_data :
    (p : NotifyPayload) (input : Bytes)
    → length p.device_hash ≤ 255
    → length p.message ≤ 255
    → 65536 ≤ length p.raw_data
    → IsBytes input
    → ((bs : Bytes) × (encode p ≡ ok bs)) × (decode input ≢ ok p)
decode-ne_long_raw_data p input hd hm hr h =
    ((encoded p, encode_short p hd hm), λ e. absurd (omega (arith, decode-raw_data-lt input p h e)))
