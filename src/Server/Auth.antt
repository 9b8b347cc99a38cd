-- ===== src/Server/Auth.antt =====
-- internal/server/server.go: `authenticateClient`, the first exchange of a connection.
pub mod Laws
use lepg.Base.{ℕ, List, [], ◌∷◌, Option, none, some, Bytes, bytes_eq, ◌==◌, if◌then◌else◌}
use lepg.Errors.{
  Error, Result, ok, err, unexpected_type, unexpected_payload, unknown_sn, token_mismatch,
}
use lepg.Conn.{Conn, without_deadline}
use lepg.MsgType
use lepg.Code
use lepg.Msg.{Msg, decode_frame}
use lepg.Payload.Handshake.{HandshakePayload}
use lepg.Packet.{Packable, handshake, parse_msg, packet_registry}
use lepg.Server.World.{ClientDef, World, send_ack}

-- The loop that looks for the client: the first one with the serial number.
unfoldable pub find_client : List ClientDef → Bytes → Option ClientDef
find_client [] sn = none
find_client (d ∷ ds) sn = if bytes_eq d.sn sn then some d else find_client ds sn

-- `sendHandshakeResponse`
unfoldable pub send_handshake_response : ℕ → ℕ → ℕ → World → World
send_handshake_response now req_msg_id code w = send_ack now MsgType.handshake_ack req_msg_id code w

abbrev pub refuse : ℕ → ℕ → ℕ → Error → World → Result HandshakePayload × World
refuse now req_msg_id code e w = (err e, send_handshake_response now req_msg_id code w)

abbrev pub check_client :
    ℕ → ℕ → HandshakePayload → Option ClientDef → World → Result HandshakePayload × World
check_client now id hs none w = refuse now id Code.bad_sn (unknown_sn hs.sn) w
check_client now id hs (some matched) w =
    if bytes_eq matched.token hs.token
    then (ok hs, send_handshake_response now id Code.success w)
    else refuse now id Code.bad_token (token_mismatch hs.sn) w

abbrev pub check_payload :
    List ClientDef → ℕ → ℕ → Result Packable → World → Result HandshakePayload × World
check_payload clients now id (err e) w = refuse now id Code.failed e w
check_payload clients now id (ok (handshake hs)) w =
    check_client now id hs (find_client clients hs.sn) w
check_payload clients now id (ok other) w = refuse now id Code.failed unexpected_payload w

abbrev pub check_handshake :
    List ClientDef → ℕ → World → Result Msg × Conn → Result HandshakePayload × World
check_handshake clients now w (err e, c) = (err e, record w { conn = c })
check_handshake clients now w (ok hs_msg, c) =
    let w' : World = record w { conn = c } in
    if hs_msg.type == MsgType.handshake
    then check_payload clients now hs_msg.msg_id (parse_msg packet_registry hs_msg) w'
    else refuse now hs_msg.msg_id Code.failed (unexpected_type hs_msg.type) w'

abbrev pub check_read :
    List ClientDef
    → ℕ
    → World
    → Option (Result Msg × Conn)
    → Option (Result HandshakePayload × World)
check_read clients now w none = none
check_read clients now w (some read) = some (check_handshake clients now w read)

-- The connection has no read deadline yet: `none` is a call that never returns.
unfoldable pub authenticate_client :
    List ClientDef → ℕ → World → Option (Result HandshakePayload × World)
authenticate_client clients now w =
    check_read clients now w (without_deadline (decode_frame w.conn))
