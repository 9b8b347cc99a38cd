-- ===== src/Tests/Payloads.antt =====
-- The payloads written and read back.
use lepg.Base.{ℕ, ◌≤◌, ◌≡◌, ◌≢◌, refl, arith, [], ◌∷◌, ◌++◌, All, Bytes, IsBytes, codes, length}
use lepg.Errors.{ok}
use lepg.Payload.Handshake
use lepg.Payload.Handshake.{HandshakePayload, decode_token}
use lepg.Payload.Ack
use lepg.Payload.Ack.{AckPayload}
use lepg.Payload.Upload
use lepg.Payload.Upload.{
  UploadPayload, encode_reading, encode_readings, tlv_string, check_readings, check_strings,
}
use lepg.Payload.Upload.Laws.{IsReading, decode-encode_upload}
use lepg.Payload.Upload.Accepted.{decode-eq-ok_upload}
use lepg.Payload.Notify
use lepg.Payload.Notify.{NotifyPayload}
use lepg.Payload.Notify.Laws.{decode-ne_long_raw_data}
use lepg.Tests.Data.{zeros, length-zeros, gateway, one_reading}

abbrev gateway_bytes : Bytes
gateway_bytes = 1 ∷ 3 ∷ codes "GW1" ++ (2 ∷ codes "t0")

gateway_encoded : Handshake.encode gateway ≡ ok gateway_bytes
unfolding Handshake.encode
gateway_encoded = refl

abbrev accepted : AckPayload
accepted = record { msg_id = 258; code = 1 }

accepted_encoded : Ack.encode accepted ≡ ok (1 ∷ 2 ∷ 1 ∷ [])
unfolding Ack.encode
accepted_encoded = refl

abbrev accepted_bytes : Bytes
accepted_bytes = 1 ∷ 2 ∷ 1 ∷ 9 ∷ []

IsReading-fits : All IsReading one_reading.readings
IsReading-fits = (record { id = omega arith; quality = omega arith; timestamp = omega arith }, tt)

abbrev upload_bytes : Bytes
upload_bytes = 0 ∷ 0 ∷ 0 ∷ 1 ∷ encode_readings one_reading.readings

upload_encoded : Upload.encode one_reading ≡ ok upload_bytes
unfolding Upload.encode check_readings check_strings
upload_encoded = refl

upload_bytes-IsBytes : IsBytes (upload_bytes ++ (9 ∷ []))
unfolding encode_readings encode_reading tlv_string
upload_bytes-IsBytes = omega arith

decode-eq-ok_upload_example :
    (bs : Bytes) × (rest : Bytes) × (Upload.encode one_reading ≡ ok bs)
    × (upload_bytes ++ (9 ∷ []) ≡ bs ++ rest)
    × All IsReading one_reading.readings
decode-eq-ok_upload_example =
    decode-eq-ok_upload (upload_bytes ++ (9 ∷ [])) one_reading upload_bytes-IsBytes (
      decode-encode_upload one_reading (9 ∷ []) upload_bytes IsReading-fits (omega arith)
        upload_encoded)

abbrev alarm : NotifyPayload
alarm = record {
  event_code = 2;
  device_hash = codes "dev";
  timestamp = 1000;
  severity = 3;
  message = codes "hot";
  raw_data = 1 ∷ 2 ∷ [];
}

abbrev alarm_bytes : Bytes
alarm_bytes = 2 ∷ 3 ∷ codes "dev" ++ (0 ∷ 0 ∷ 3 ∷ 232 ∷ 3 ∷ 3 ∷ codes "hot" ++ (0 ∷ 2 ∷ 1 ∷ 2 ∷ []))

alarm_encoded : Notify.encode alarm ≡ ok alarm_bytes
unfolding Notify.encode
alarm_encoded = refl

-- The length of the raw data.
dump_size : ℕ
dump_size = 65536

dump_size_lem : 65536 ≤ length (zeros dump_size)
unfolding dump_size
dump_size_lem = omega (arith, length-zeros dump_size)

abbrev dump : NotifyPayload
dump = record alarm { raw_data = zeros dump_size }

decode-ne_long_raw_data_example :
    ((bs : Bytes) × (Notify.encode dump ≡ ok bs)) × (Notify.decode alarm_bytes ≢ ok dump)
decode-ne_long_raw_data_example =
    decode-ne_long_raw_data dump alarm_bytes (omega arith) (omega arith) dump_size_lem (omega arith)
