-- ===== src/Tests/Client.antt =====
-- A batch of one reading on its way to the server, and a session of the gateway.
use lepg.Base.{true, ℕ, ◌≤◌, ◌≡◌, ◌≢◌, ◌%◌, refl, arith, List, [], ◌∷◌, ◌++◌, length, some}
use lepg.Errors.{Result, ok}
use lepg.MsgType
use lepg.Timestamp.{from_unix_milli}
use lepg.Conn.{Conn, closed}
use lepg.Msg.{Msg}
use lepg.Msg.RoundTrip.{received}
use lepg.Reading.{Reading}
use lepg.Payload.Upload
use lepg.Payload.Upload.{
  UploadPayload, encode_reading, encode_readings, tlv_string, check_readings, check_strings,
}
use lepg.Packet.{new_msg, next, encode, new_msg_factory}
use lepg.Msg as Frame
use lepg.Payload.Ack.{AckPayload}
use lepg.Server.World.Ack.{ack_msg}
use lepg.Client.Upload.Canceled.{AllSending, NoneOf, Later, canceled_never_loaded}
use lepg.Client.Handshake.{Link, perform_handshake}
use lepg.Client.Session.{Case, upload_due, heartbeat_due, conn_dead, Session}
use lepg.Client.Handshake.Laws.{perform_handshake_answered}
use lepg.Client.Store.{
  sending, not_sent, CachedReading, update_readings_status, load_pending_readings,
}
use lepg.Client.Upload.{Event, acked, ctx_done, Uploader, ids_of, send_upload, upload_readings}
use lepg.Client.Upload.Laws.{
  batch, settled, first_event, upload_readings-rows, upload_readings_never_split,
}
use lepg.Tests.Data.{
  gateway, hello_built, reading, now, one_message, hello, hello_stream, hello_stream-IsBytes,
  hello_read, zeros, length-zeros, upload_msg,
}

abbrev waiting : CachedReading
waiting = record { reading = reading; status = not_sent }

abbrev idle : Conn
idle = record { incoming = []; ending = closed; sent = []; write_results = [] }

-- The acknowledgement of another message.
abbrev stale : Event
stale = acked (record { msg_id = 77; code = 1 })

abbrev gateway_with : List Event → Uploader
gateway_with events = record {
  conn = idle;
  factory = new_msg_factory;
  rows = waiting ∷ [];
  update_results = [];
  events = events;
  consecutive_all_timeout = 0;
}

upload_built :
    new_msg new_msg_factory now MsgType.upload (batch (waiting ∷ [])) ≡ (ok upload_msg, one_message)
unfolding new_msg next encode Upload.encode check_readings check_strings from_unix_milli
    encode_readings encode_reading tlv_string
upload_built = refl

upload_readings-rows_example :
    (result : Result (Unit {0})) × (u' : Uploader) × (upload_readings 1 65535 now
        (waiting ∷ [])
        (gateway_with (stale ∷ []))
      ≡ some (result, u'))
    × (u'.rows
        ≡ update_readings_status
            (ids_of (waiting ∷ []))
            (settled (first_event (stale ∷ [])))
            (waiting ∷ []))
upload_readings-rows_example =
    upload_readings-rows 0 now waiting [] (gateway_with (stale ∷ [])) upload_msg one_message
      upload_built refl refl

canceled_never_loaded_example :
    (result : Result (Unit {0})) × (u' : Uploader) × (upload_readings 1 65535 now
        (waiting ∷ [])
        (gateway_with (ctx_done ∷ []))
      ≡ some (result, u'))
    × (u'.rows ≡ update_readings_status (ids_of (waiting ∷ [])) sending (waiting ∷ []))
    × ((v : Uploader) (limit : ℕ)
        → Later (ids_of (waiting ∷ [])) u' v
        → AllSending (ids_of (waiting ∷ [])) v.rows
          × NoneOf (ids_of (waiting ∷ [])) (load_pending_readings limit v.rows))
canceled_never_loaded_example =
    canceled_never_loaded 0 now waiting [] (gateway_with (ctx_done ∷ [])) upload_msg one_message []
      upload_built refl refl refl

half : ℕ
half = 40000

half_short : length (zeros half) ≤ 65535
unfolding half
half_short = omega (arith, length-zeros half)

abbrev long : CachedReading
long = record { reading = record reading { value = zeros half }; status = not_sent }

abbrev long_readings : List Reading
long_readings = long.reading ∷ long.reading ∷ []

abbrev long_msg : Msg
long_msg = record {
  magic = 0x4E59;
  version = 1;
  flags = 0;
  type = 3;
  msg_id = 1;
  payload_len = length (0 ∷ 0 ∷ 0 ∷ 2 ∷ encode_readings long_readings) % 65536;
  timestamp = 1000;
  payload = 0 ∷ 0 ∷ 0 ∷ 2 ∷ encode_readings long_readings;
  checksum = 0;
}

long_checked : check_readings long_readings ≡ ok tt
unfolding check_readings check_strings
long_checked = ground (arith, half_short)

long_built :
    new_msg new_msg_factory now MsgType.upload (batch (long ∷ long ∷ []))
    ≡ (ok long_msg, one_message)
unfolding new_msg next encode Upload.encode from_unix_milli
long_built = rw (new_msg, encode, Upload.encode, long_checked) refl

long_size : 65536 ≤ length long_msg.payload
unfolding encode_readings encode_reading tlv_string half
long_size = omega (arith, length-zeros half)

upload_readings_never_split_example :
    (upload_readings 1 65535 now (long ∷ long ∷ []) (gateway_with [])
      ≡ some (
          send_upload
            (ids_of (long ∷ long ∷ []))
            long_msg
            (record (gateway_with []) { factory = one_message })))
    × (hello.payload ≢ long_msg.payload)
upload_readings_never_split_example =
    upload_readings_never_split 0 now long (long ∷ []) (gateway_with []) long_msg (received hello)
      one_message hello_stream (record hello_stream { incoming = 7 ∷ [] }) long_built long_size
      hello_stream-IsBytes hello_read

abbrev let_in : AckPayload
let_in = record { msg_id = 1; code = 1 }

abbrev answered : Conn
answered = record {
  incoming =
      (Frame.encode (ack_msg now MsgType.handshake_ack let_in new_msg_factory)).0 ++ (9 ∷ []);
  ending = closed;
  sent = [];
  write_results = [];
}

perform_handshake_answered_example :
    perform_handshake now gateway.sn gateway.token
      (record { conn = answered; factory = new_msg_factory })
    ≡ some (
      ok tt,
      record {
        conn = record answered { incoming = 9 ∷ []; sent = (Frame.encode hello).0 ∷ [] };
        factory = one_message;
      },
    )
perform_handshake_answered_example =
    perform_handshake_answered now now gateway.sn gateway.token
      (record { conn = answered; factory = new_msg_factory }) hello one_message new_msg_factory
      let_in (9 ∷ []) hello_built (omega arith) (omega arith) refl refl

abbrev link : Link
link = record { conn = answered; factory = new_msg_factory }

abbrev joined : Link
joined = record {
  conn = record answered { incoming = 9 ∷ []; sent = (Frame.encode hello).0 ∷ [] };
  factory = one_message;
}

-- An upload, a heartbeat, and the end of the connection.
abbrev cases : List (ℕ × Case)
cases = (now, upload_due true) ∷ (now, heartbeat_due true) ∷ (now, conn_dead) ∷ []
