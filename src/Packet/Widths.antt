-- ===== src/Packet/Widths.antt =====
-- The payloads whose fields fit their Go types encode to byte strings.
use lepg.Base.{
  ℕ, ◌%◌, ◌^◌, ◌<◌, ◌≡◌, arith, List, [], ◌∷◌, ◌++◌, Bytes, IsByte, IsBytes, All, All-append,
  length,
}
use lepg.Errors.{ok, >>=-eq-ok, ok-injective}
use lepg.Wire.{put_uint16, put_uint32, put_uint64}
use lepg.Reading.{Reading}
use lepg.Payload.Handshake
use lepg.Payload.Handshake.Laws.{encode-eq-ok_handshake}
use lepg.Payload.Handshake.{HandshakePayload}
use lepg.Payload.Ack
use lepg.Payload.Ack.{AckPayload}
use lepg.Payload.Upload
use lepg.Payload.Upload.{UploadPayload, tlv_string, encode_reading, encode_readings, check_readings}
use lepg.Payload.Upload.Laws.{IsReading}
use lepg.Payload.Notify
use lepg.Payload.Notify.Laws.{encode-eq-ok_notify}
use lepg.Payload.Notify.{NotifyPayload}
use lepg.Packet.{Packable, handshake, ack, upload, heartbeat, notify, encode}

-- The strings of a reading are byte strings.
pub record IsText (r : Reading) : Type 0 where
  pub device : IsBytes r.device
  pub device_name : IsBytes r.device_name
  pub point : IsBytes r.point
  pub point_name : IsBytes r.point_name
  pub data_type : IsBytes r.data_type
  pub value : IsBytes r.value
  pub unit : IsBytes r.unit

-- The fields of a payload fit their Go types. For an upload the number of readings fits its 32-bit
-- count, and for a notification the raw data its 16-bit length.
abbrev pub IsPackable : Packable → Type 0
IsPackable (handshake p) = (p.firmware_version < 256) × IsBytes p.sn × IsBytes p.token
IsPackable (ack p) = (p.msg_id < 65536) × (p.code < 256)
IsPackable (upload p) =
    All IsReading p.readings × All IsText p.readings × (length p.readings < 2 ^ 32)
IsPackable heartbeat = Unit {0}
IsPackable (notify p) =
    (p.event_code < 256)
    × IsBytes p.device_hash
    × (p.timestamp < 2 ^ 32)
    × (p.severity < 256)
    × IsBytes p.message
    × IsBytes p.raw_data
    × (length p.raw_data < 65536)

tlv_string-IsBytes : (s : Bytes) → IsBytes s → IsBytes (tlv_string s)
unfolding tlv_string
tlv_string-IsBytes s h = (omega arith, (omega arith, h))

encode_reading-IsBytes : (r : Reading) → IsText r → IsBytes (encode_reading r)
unfolding encode_reading
encode_reading-IsBytes r t =
    let unit : Bytes = tlv_string r.unit ++ put_uint64 r.timestamp in
    let value : Bytes = tlv_string r.value ++ ((r.quality % 256) ∷ unit) in
    let data_type : Bytes = tlv_string r.data_type ++ value in
    let point_name : Bytes = tlv_string r.point_name ++ data_type in
    let point : Bytes = tlv_string r.point ++ point_name in
    let device_name : Bytes = tlv_string r.device_name ++ point in
    let device : Bytes = tlv_string r.device ++ device_name in
    let word : (v : ℕ) → IsBytes (put_uint64 v) = λ v. omega arith in
    let text : (s rest : Bytes) → IsBytes s → IsBytes rest → IsBytes (tlv_string s ++ rest) =
      λ s rest hs h. All-append IsByte (tlv_string s) rest (tlv_string-IsBytes s hs) h in
    let from_unit : IsBytes unit = text r.unit (put_uint64 r.timestamp) t.unit (word r.timestamp) in
    let from_value : IsBytes value =
      text r.value ((r.quality % 256) ∷ unit) t.value (omega arith, from_unit) in
    let from_data_type : IsBytes data_type = text r.data_type value t.data_type from_value in
    let from_point_name : IsBytes point_name =
      text r.point_name data_type t.point_name from_data_type in
    let from_point : IsBytes point = text r.point point_name t.point from_point_name in
    let from_device_name : IsBytes device_name =
      text r.device_name point t.device_name from_point in
    All-append IsByte (put_uint64 r.id) device (word r.id)
      (text r.device device_name t.device from_device_name)

encode_readings-IsBytes : (rs : List Reading) → All IsText rs → IsBytes (encode_readings rs)
unfolding encode_readings
encode_readings-IsBytes [] h = tt
encode_readings-IsBytes (r ∷ rs) (hr, h) =
    All-append IsByte (encode_reading r) (encode_readings rs) (encode_reading-IsBytes r hr)
      (encode_readings-IsBytes rs h)

handshake-IsBytes :
    (p : HandshakePayload) (bs : Bytes)
    → IsPackable (handshake p)
    → Handshake.encode p ≡ ok bs
    → IsBytes bs
handshake-IsBytes p bs (hf, hs, ht) e =
    let (short_sn, short_token, bytes) = encode-eq-ok_handshake p bs e in
    rw bytes (hf, (omega arith, All-append IsByte p.sn _ hs (omega arith, ht)))

notify-IsBytes :
    (p : NotifyPayload) (bs : Bytes) → IsPackable (notify p) → Notify.encode p ≡ ok bs → IsBytes bs
notify-IsBytes p bs (he, hd, ht, hs, hm, hr, _) e =
    let (short_hash, short_message, bytes) = encode-eq-ok_notify p bs e in
    let raw : Bytes = put_uint16 (length p.raw_data % 65536) ++ p.raw_data in
    let text : Bytes = p.message ++ raw in
    let fixed : Bytes = p.severity ∷ length p.message ∷ text in
    let from_raw : IsBytes raw =
      All-append IsByte (put_uint16 (length p.raw_data % 65536)) p.raw_data (omega arith) hr in
    let from_text : IsBytes text = All-append IsByte p.message raw hm from_raw in
    let from_fixed : IsBytes fixed = (hs, (omega arith, from_text)) in
    let from_time : IsBytes (put_uint32 p.timestamp ++ fixed) =
      All-append IsByte (put_uint32 p.timestamp) fixed (omega arith) from_fixed in
    rw bytes (
      he,
      (omega arith, All-append IsByte p.device_hash (put_uint32 p.timestamp ++ fixed) hd from_time),
    )

ack-IsBytes : (p : AckPayload) (bs : Bytes) → IsPackable (ack p) → Ack.encode p ≡ ok bs → IsBytes bs
unfolding Ack.encode
ack-IsBytes p bs (hi, hc) e =
    let written : IsBytes (put_uint16 p.msg_id ++ (p.code ∷ [])) =
      (omega arith, (omega arith, (hc, tt))) in
    rw (← ok-injective (put_uint16 p.msg_id ++ (p.code ∷ [])) bs e) written

upload-IsBytes :
    (p : UploadPayload) (bs : Bytes) → IsPackable (upload p) → Upload.encode p ≡ ok bs → IsBytes bs
unfolding Upload.encode
upload-IsBytes p bs (_, text, _) e =
    let count : Bytes = put_uint32 (length p.readings % 2 ^ 32) in
    let (u, _, written) = >>=-eq-ok (check_readings p.readings) _ e in
    rw (← ok-injective (count ++ encode_readings p.readings) bs written) (
      All-append IsByte count (encode_readings p.readings) (omega arith)
        (encode_readings-IsBytes p.readings text))

-- What `NewMsg` puts into a message is a byte string.
pub encode-IsBytes : (p : Packable) (bs : Bytes) → IsPackable p → encode p ≡ ok bs → IsBytes bs
unfolding encode
encode-IsBytes (handshake p) bs h e = handshake-IsBytes p bs h e
encode-IsBytes (ack p) bs h e = ack-IsBytes p bs h e
encode-IsBytes (upload p) bs h e = upload-IsBytes p bs h e
encode-IsBytes heartbeat bs h e = rw (← ok-injective [] bs e) tt
encode-IsBytes (notify p) bs h e = notify-IsBytes p bs h e
