-- ===== src/Tests/Data.antt =====
-- The inputs of the tests: a gateway, its messages, and a connection on which they arrive.
use lepg.Base.{ℕ, zero, suc, [], ◌∷◌, ◌++◌, Bytes, IsBytes, codes, length, arith, ◌≡◌, refl, ◌<◌}
use lepg.Errors.{ok}
use lepg.MsgType
use lepg.Timestamp.{from_unix_milli}
use lepg.Conn.{Conn, closed}
use lepg.Msg as Frame
use lepg.Msg.{Msg, IsWire, header, decode_frame}
use lepg.Msg.RoundTrip.{received, decode_frame-encode}
use lepg.Reading.{Reading}
use lepg.Payload.Handshake
use lepg.Payload.Handshake.{HandshakePayload}
use lepg.Payload.Upload.{UploadPayload, encode_readings}
use lepg.Packet.{MsgFactory, handshake, encode, new_msg, next, new_msg_factory}

abbrev pub gateway : HandshakePayload
gateway = record { firmware_version = 1; sn = codes "GW1"; token = codes "t0" }

abbrev pub now : ℕ
now = 1577836801000

abbrev pub one_message : MsgFactory
one_message = record { current = 1 }

abbrev pub hello : Msg
hello = record {
  magic = 0x4E59;
  version = 1;
  flags = 0;
  type = 1;
  msg_id = 1;
  payload_len = 8;
  timestamp = 1000;
  payload = 1 ∷ 3 ∷ codes "GW1" ++ (2 ∷ codes "t0");
  checksum = 0;
}

pub hello_built :
    new_msg new_msg_factory now MsgType.handshake (handshake gateway) ≡ (ok hello, one_message)
unfolding new_msg next encode Handshake.encode from_unix_milli
hello_built = refl

abbrev pub hello_stream : Conn
hello_stream = record {
  incoming = (Frame.encode hello).0 ++ (7 ∷ []);
  ending = closed;
  sent = [];
  write_results = [];
}

pub hello-IsWire : IsWire hello
hello-IsWire = record {
  magic = refl;
  version = omega arith;
  flags = omega arith;
  type = omega arith;
  msg_id = omega arith;
  timestamp = omega arith;
  payload = omega arith;
}

pub hello_stream-IsBytes : IsBytes hello_stream.incoming
unfolding Frame.encode header
hello_stream-IsBytes = omega arith

pub hello_stream-length : length hello_stream.incoming < 100
unfolding Frame.encode header
hello_stream-length = omega arith

abbrev pub reading : Reading
reading = record {
  id = 1;
  device = codes "d";
  device_name = codes "boiler";
  point = codes "p";
  point_name = codes "temp";
  data_type = codes "float";
  value = codes "21.5";
  quality = 1;
  unit = codes "C";
  timestamp = 1700000000000;
}

abbrev pub one_reading : UploadPayload
one_reading = record { readings = reading ∷ [] }

pub hello_read :
    decode_frame hello_stream ≡ (ok (received hello), record hello_stream { incoming = 7 ∷ [] })
hello_read = decode_frame-encode hello (7 ∷ []) hello_stream hello-IsWire (omega arith) refl

abbrev pub zeros : ℕ → Bytes
zeros zero = []
zeros (suc n) = 0 ∷ zeros n

pub length-zeros : (n : ℕ) → length (zeros n) ≡ n
length-zeros zero = refl
length-zeros (suc n) = omega (arith, length-zeros n)

abbrev pub upload_msg : Msg
upload_msg = record {
  magic = 0x4E59;
  version = 1;
  flags = 0;
  type = 3;
  msg_id = 1;
  payload_len = length (0 ∷ 0 ∷ 0 ∷ 1 ∷ encode_readings one_reading.readings);
  timestamp = 1000;
  payload = 0 ∷ 0 ∷ 0 ∷ 1 ∷ encode_readings one_reading.readings;
  checksum = 0;
}
