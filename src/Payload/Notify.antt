-- ===== src/Payload/Notify.antt =====
-- internal/msg/payload.go: the notification payload.
pub mod Laws
use lepg.Base.{ℕ, ◌+◌, ◌%◌, [], ◌∷◌, ◌++◌, Bytes, length, ltb, if◌then◌else◌}
use lepg.Errors.{
  Result, ok, err, device_hash_too_long, message_too_long, payload_too_short,
  invalid_device_hash_length, truncated_timestamp, invalid_message_length,
  truncated_raw_data_length, invalid_raw_data_length,
}
use lepg.Wire.{put_uint16, put_uint32, at, slice, uint16_at, uint32_at}

pub record NotifyPayload : Type 0 where
  pub event_code : ℕ
  pub device_hash : Bytes
  pub timestamp : ℕ
  pub severity : ℕ
  pub message : Bytes
  pub raw_data : Bytes

unfoldable pub encode : NotifyPayload → Result Bytes
encode p =
    if ltb 255 (length p.device_hash)
    then err (device_hash_too_long (length p.device_hash))
    else if ltb 255 (length p.message)
    then err (message_too_long (length p.message))
    else ok (
        p.event_code
        ∷ (length p.device_hash % 256)
        ∷ (p.device_hash
            ++ (put_uint32 p.timestamp
                ++ (p.severity
                    ∷ (length p.message % 256)
                    ∷ (p.message ++ (put_uint16 (length p.raw_data % 65536) ++ p.raw_data))))))

-- `Decode` from the raw data on, with the fields before it; `off` is where its length stands.
unfoldable pub decode_raw_data : Bytes → ℕ → NotifyPayload → Result NotifyPayload
decode_raw_data input off p =
    if ltb (length input) (off + 2)
    then err truncated_raw_data_length
    else let rd_len = uint16_at input off in
      if ltb (length input) (off + 2 + rd_len)
      then err (invalid_raw_data_length rd_len)
      else ok (record p { raw_data = slice input (off + 2) (off + 2 + rd_len) })

-- `Decode` from the block of fixed length on.
unfoldable pub decode_message : Bytes → ℕ → NotifyPayload → Result NotifyPayload
decode_message input off p =
    if ltb (length input) (off + 6)
    then err truncated_timestamp
    else let msg_len = at input (off + 5) in
      if ltb (length input) (off + 6 + msg_len)
      then err (invalid_message_length msg_len)
      else decode_raw_data input (off + 6 + msg_len) (record p {
        timestamp = uint32_at input off;
        severity = at input (off + 4);
        message = slice input (off + 6) (off + 6 + msg_len);
      })

abbrev pub zero_payload : NotifyPayload
zero_payload = record {
  event_code = 0;
  device_hash = [];
  timestamp = 0;
  severity = 0;
  message = [];
  raw_data = [];
}

unfoldable pub decode : Bytes → Result NotifyPayload
decode input =
    if ltb (length input) 10
    then err (payload_too_short (length input))
    else let dh_len = at input 1 in
      if ltb (length input) (2 + dh_len)
      then err (invalid_device_hash_length dh_len)
      else decode_message input (2 + dh_len) (record zero_payload {
        event_code = at input 0;
        device_hash = slice input 2 (2 + dh_len);
      })
