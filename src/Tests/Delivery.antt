-- ===== src/Tests/Delivery.antt =====
-- Two uploads of one gateway in the loop of the server.
use lepg.Base.{◌≡◌, refl, arith, true, List, [], ◌∷◌, ◌++◌, Bytes, bytes_eq, codes, Option, none}
use lepg.Msg.{Msg}
use lepg.Reading.{Reading}
use lepg.Timestamp.{from_unix_milli}
use lepg.Payload.Upload as Upload
use lepg.Payload.Upload.{UploadPayload, encode_readings, check_readings, encode_reading, tlv_string}
use lepg.Packet.{new_msg, new_msg_factory, encode}
use lepg.Server.Dedup.{new_dedup_cache, exists, add, insert, evict}
use lepg.Server.World.{World}
use lepg.Server.Session.{message_loop}
use lepg.Server.Session.Delivery.{Sent, IsSent, frames, rows_sent, Unseen, message_loop_delivers}
use lepg.Tests.Data.{reading, one_reading, upload_msg, hello_stream, one_message, now}

abbrev warmer : UploadPayload
warmer = record { readings = record reading { value = codes "22" } ∷ [] }

abbrev warmer_msg : Msg
warmer_msg = record upload_msg {
  msg_id = 2;
  payload = 0 ∷ 0 ∷ 0 ∷ 1 ∷ encode_readings warmer.readings;
  payload_len = 55;
}

abbrev two_uploads : List Sent
two_uploads = (one_reading, upload_msg) ∷ (warmer, warmer_msg) ∷ []

abbrev keep : Bytes → Bytes
keep bs = bs

abbrev no_text : List Reading → Option Bytes
no_text rs = none

abbrev server : World
server = record {
  conn = record hello_stream { incoming = frames two_uploads ++ (9 ∷ []) };
  factory = new_msg_factory;
  dedup = new_dedup_cache 200;
  connections = [];
  saved = [];
  save_results = [];
  published = [];
  routed = [];
}

first-IsSent : IsSent (one_reading, upload_msg)
unfolding new_msg encode Upload.encode check_readings encode_readings from_unix_milli encode_reading
    tlv_string
first-IsSent = record {
  factory = new_msg_factory;
  next_factory = one_message;
  at = now;
  built = refl;
  fields = (
    (record { id = omega arith; quality = omega arith; timestamp = omega arith }, tt),
    (
      record {
        device = omega arith;
        device_name = omega arith;
        point = omega arith;
        point_name = omega arith;
        data_type = omega arith;
        value = omega arith;
        unit = omega arith;
      },
      tt,
    ),
    omega arith,
  );
  short = omega arith;
}

second-IsSent : IsSent (warmer, warmer_msg)
unfolding new_msg encode Upload.encode check_readings encode_readings from_unix_milli encode_reading
    tlv_string
second-IsSent = record {
  factory = one_message;
  next_factory = record { current = 2 };
  at = now;
  built = refl;
  fields = (
    (record { id = omega arith; quality = omega arith; timestamp = omega arith }, tt),
    (
      record {
        device = omega arith;
        device_name = omega arith;
        point = omega arith;
        point_name = omega arith;
        data_type = omega arith;
        value = omega arith;
        unit = omega arith;
      },
      tt,
    ),
    omega arith,
  );
  short = omega arith;
}

both-Unseen : Unseen keep no_text true (codes "GW1") server.dedup two_uploads
unfolding exists new_dedup_cache add evict insert bytes_eq encode_readings encode_reading tlv_string
both-Unseen = (refl, (refl, tt))

message_loop_delivers_example :
    (out : World) × (message_loop keep no_text true (λ n. now) 12 1 (codes "GW1") server
      ≡ message_loop keep no_text true (λ n. now) 10 3 (codes "GW1") out)
    × (out.saved ≡ [] ++ rows_sent (codes "GW1") two_uploads)
    × (out.conn.incoming ≡ 9 ∷ [])
message_loop_delivers_example =
    message_loop_delivers keep no_text true (λ n. now) two_uploads 10 1 (codes "GW1") (9 ∷ [])
      server (first-IsSent, (second-IsSent, tt)) both-Unseen refl refl
