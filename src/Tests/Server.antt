-- ===== src/Tests/Server.antt =====
-- The server at one gateway.
use lepg.Base.{
  ℕ, ◌<◌, ◌≡◌, ◌≢◌, ◌⊎◌, inl, inr, refl, arith, subst, Bool, true, false, List, [], ◌∷◌, ◌++◌,
  Bytes, bytes_eq, codes, find, Option, some, none, if◌then◌else◌,
}
use lepg.Errors.{Result, ok, err, token_mismatch, unknown_sn}
use lepg.MsgType
use lepg.Code
use lepg.Conn.{Conn}
use lepg.Msg as Frame
use lepg.Msg.{Msg, decode_frame}
use lepg.Msg.RoundTrip.{received}
use lepg.Reading.{Reading}
use lepg.Payload.Handshake.{HandshakePayload}
use lepg.Payload.Ack.{AckPayload}
use lepg.Packet.{handshake, ack, next, new_msg_factory, parse_msg, packet_registry}
use lepg.Server.Dedup.{new_dedup_cache, exists, add}
use lepg.Server.Dedup.Synced.{IsSynced}
use lepg.Server.Connections.{Connection, register_connection, get_connection}
use lepg.Server.Session.Overlap.{older_removes_newer}
use lepg.Server.Grouping.{
  count_groups, group_readings_by_device_name, group_readings_prealloc, group_readings,
}
use lepg.Server.Grouping.Laws.{group_of, group_if_any, count_if_any, group_readings_agree}
use lepg.Server.World.{ClientDef, World, send_ack}
use lepg.Server.World.Ack.{ack_msg, send_ack_replies, stored}
use lepg.Server.Auth.{find_client, send_handshake_response, authenticate_client}
use lepg.Server.Auth.Laws.{
  Known, authenticate_client-new_msg, authenticate_client_decides, authenticate_client-eq-ok,
}
use lepg.Server.Upload.{upload_key, handle_upload}
use lepg.Server.Upload.Laws.{
  rows_of, handle_upload-stored, handle_upload-repeated, failed_save_lost,
}
use lepg.Server.Session.{Handled, handle_connection, message_loop, new_connection, cleanup}
use lepg.Server.Upload.{handle_heartbeat}
use lepg.Packet.{MsgFactory}
use lepg.Server.Session.Total.{IsEnd, handle_connection_total}
use lepg.Tests.Data.{
  gateway, reading, now, one_message, hello, hello_built, hello_stream, hello_stream-IsBytes,
  hello_stream-length, upload_msg,
}

abbrev clients : List ClientDef
clients =
    record { sn = codes "GW0"; token = codes "x"; description = [] }
    ∷ record { sn = codes "GW1"; token = codes "t0"; description = codes "boiler room" }
    ∷ []

-- A server that has just started, whose store refuses the saves that the list names so.
abbrev server_with : List Bool → World
server_with results = record {
  conn = hello_stream;
  factory = new_msg_factory;
  dedup = new_dedup_cache 200;
  connections = [];
  saved = [];
  save_results = results;
  published = [];
  routed = [];
}

abbrev server : World
server = server_with []

new_IsSynced : IsSynced (new_dedup_cache 200)
unfolding new_dedup_cache
new_IsSynced = record { agree = λ key. refl; fresh = tt; bounded = omega arith }

new_capacity : 0 < (new_dedup_cache 200).capacity
unfolding new_dedup_cache
new_capacity = omega arith

-- Stand-ins for SHA-256 and for the JSON text.
abbrev first_bytes : Bytes → Bytes
first_bytes bs = bs

abbrev no_text : List Reading → Option Bytes
no_text rs = none

abbrev clock : ℕ → ℕ
clock n = now

abbrev accepted : AckPayload
accepted = record { msg_id = 258; code = 1 }

abbrev ack_frame : Bytes
ack_frame = (Frame.encode (ack_msg now 4 accepted new_msg_factory)).0

send_ack_replies_example :
    (((Frame.encode (ack_msg now 4 accepted new_msg_factory)).1.checksum ≡ 0)
      × (send_ack now 4 258 1 server ≡ record server { factory = (next new_msg_factory).1 }))
    ⊎ (((Frame.encode (ack_msg now 4 accepted new_msg_factory)).1.checksum ≢ 0)
        × (send_ack now 4 258 1 server ≡ record server {
          factory = (next new_msg_factory).1;
          conn = record hello_stream { sent = ack_frame ∷ [] };
        })
        × (decode_frame (record hello_stream { incoming = ack_frame ++ [] }) ≡ (
          ok (received (ack_msg now 4 accepted new_msg_factory)),
          record hello_stream { incoming = [] },
        ))
        × (parse_msg packet_registry (received (ack_msg now 4 accepted new_msg_factory))
            ≡ ok (ack accepted)))
send_ack_replies_example =
    send_ack_replies now 4 258 1 server hello_stream [] (inr (inl refl)) (omega arith) (omega arith)
      refl

abbrev answer : ℕ → World
answer code =
    send_handshake_response now 1 code
      (record server { conn = record hello_stream { incoming = 7 ∷ [] } })

authenticate_client_decides_example :
    (Known clients gateway
      × (authenticate_client clients now server ≡ some (ok gateway, answer Code.success)))
    ⊎ ((((d : ClientDef) × (find_client clients gateway.sn ≡ some d) × (d.token ≢ gateway.token))
          × (authenticate_client clients now server
              ≡ some (err (token_mismatch gateway.sn), answer Code.bad_token)))
        ⊎ ((find_client clients gateway.sn ≡ none)
            × (authenticate_client clients now server
                ≡ some (err (unknown_sn gateway.sn), answer Code.bad_sn))))
authenticate_client_decides_example =
    authenticate_client_decides clients new_msg_factory one_message now now gateway hello (7 ∷ [])
      server (omega arith) hello_built refl

let_in : authenticate_client clients now server ≡ some (ok gateway, answer Code.success)
unfolding find_client bytes_eq
let_in =
    authenticate_client-new_msg clients new_msg_factory one_message now now gateway hello (7 ∷ [])
      server (omega arith) hello_built refl

authenticate_client-eq-ok_example :
    (m : Msg) × (c : Conn) × (decode_frame hello_stream ≡ (ok m, c))
    × (m.type ≡ MsgType.handshake)
    × (parse_msg packet_registry m ≡ ok (handshake gateway))
    × Known clients gateway
    × (answer Code.success
        ≡ send_handshake_response now m.msg_id Code.success (record server { conn = c }))
authenticate_client-eq-ok_example =
    authenticate_client-eq-ok clients now gateway server (answer Code.success) let_in

abbrev fresh : World
fresh = record server { factory = new_msg_factory }

let_in_fresh : authenticate_client clients now fresh ≡ some (ok gateway, answer Code.success)
let_in_fresh = let_in

handle_connection_total_example :
    (out : Handled) × (handle_connection first_bytes no_text true clock clients 100
        (codes "10.0.0.7:5000")
        (codes "u1")
        server
      ≡ some out)
    × IsEnd first_bytes no_text true clock clients server
        (some (ok gateway, answer Code.success))
        out
handle_connection_total_example =
    subst
      (λ (a : Option (Result HandshakePayload × World)).
        (out : Handled) × (handle_connection first_bytes no_text true clock clients 100
            (codes "10.0.0.7:5000") (codes "u1") server
          ≡ some out)
        × IsEnd first_bytes no_text true clock clients server a out)
      let_in_fresh
      (handle_connection_total first_bytes no_text true clock clients 100 (codes "10.0.0.7:5000")
        (codes "u1") server hello_stream-IsBytes hello_stream-length new_IsSynced)

abbrev gw1 : Bytes
gw1 = codes "GW1"

abbrev key : Bytes
key = upload_key first_bytes gw1 upload_msg

abbrev uploaded : List Bool → World
uploaded results = handle_upload first_bytes no_text true now upload_msg gw1 (server_with results)

handle_upload-stored_example : stored (uploaded []) ≡ (
    if (exists key server.dedup).0
    then (server.saved, (exists key server.dedup).1, server.conn.incoming)
    else (
      server.saved ++ rows_of [] gw1 (parse_msg packet_registry upload_msg),
      add key (exists key server.dedup).1,
      server.conn.incoming,
    ))
handle_upload-stored_example =
    handle_upload-stored first_bytes no_text true now upload_msg gw1 server

handle_upload-repeated_example :
    (handle_upload first_bytes no_text true now upload_msg gw1 (uploaded [])
      ≡ send_ack now MsgType.upload_ack 1 Code.success
          (record (uploaded []) { dedup = (exists key (uploaded []).dedup).1 }))
    × ((handle_upload first_bytes no_text true now upload_msg gw1 (uploaded [])).saved
        ≡ (uploaded []).saved)
handle_upload-repeated_example =
    handle_upload-repeated first_bytes no_text true now now upload_msg gw1 server new_IsSynced
      new_capacity

failed_save_lost_example :
    (handle_upload first_bytes no_text true now upload_msg gw1 (uploaded (false ∷ []))
      ≡ send_ack now MsgType.upload_ack 1 Code.success
          (record (uploaded (false ∷ [])) { dedup = (exists key (uploaded (false ∷ [])).dedup).1 }))
    × ((handle_upload first_bytes no_text true now upload_msg gw1 (uploaded (false ∷ []))).saved
        ≡ [])
failed_save_lost_example =
    failed_save_lost first_bytes no_text true now now upload_msg gw1 (server_with (false ∷ [])) []
      new_IsSynced new_capacity refl

abbrev nameless : Reading
nameless = record reading { device_name = [] }

abbrev mixed : List Reading
mixed = nameless ∷ reading ∷ nameless ∷ []

abbrev unknown : Bytes
unknown = codes "__unknown__"

group_readings_agree_example :
    (find unknown (group_readings_by_device_name mixed) ≡ group_if_any (group_of unknown mixed))
    × (find unknown (group_readings_prealloc mixed) ≡ group_if_any (group_of unknown mixed))
    × (find unknown (group_readings mixed) ≡ group_if_any (group_of unknown mixed))
    × (find unknown (count_groups mixed []) ≡ count_if_any (group_of unknown mixed))
group_readings_agree_example = group_readings_agree unknown mixed

abbrev newer : Connection
newer = new_connection first_bytes no_text true clock gw1 (codes "10.0.0.8") (codes "u2")

older_removes_newer_example :
    (get_connection gw1 (register_connection newer []) ≡ some newer)
    × ((w' : World) × (cleanup first_bytes no_text true clock gw1 (
            message_loop first_bytes no_text true clock 100 1 gw1
              (record server { connections = register_connection newer [] }))
          ≡ some w')
        × (get_connection gw1 w'.connections ≡ none)
        × ((later : ℕ) (m : Msg) (c : Conn) (f : MsgFactory)
            → (handle_heartbeat later m gw1 (record w' { conn = c; factory = f })).connections
              ≡ w'.connections))
older_removes_newer_example =
    older_removes_newer first_bytes no_text true clock 100 1 gw1 (codes "10.0.0.8") (codes "u2")
      server hello_stream-IsBytes hello_stream-length new_IsSynced
