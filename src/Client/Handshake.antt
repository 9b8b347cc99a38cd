-- ===== src/Client/Handshake.antt =====
-- internal/client/client.go: `performHandshake`, the gateway's side of the first exchange.
pub mod Laws
use lepg.Base.{ℕ, Option, none, some, Bytes, ◌==◌, if◌then◌else◌}
use lepg.Errors.{Result, ok, err, handshake_rejected, unexpected_payload, unexpected_type}
use lepg.MsgType
use lepg.Code
use lepg.Conn.{Conn, write, without_deadline}
use lepg.Msg as Frame
use lepg.Msg.{Msg, decode_frame}
use lepg.Packet.{Packable, handshake, ack, MsgFactory, new_msg, parse_msg, packet_registry}

-- The connection and its factory.
pub record Link : Type 0 where
  pub conn : Conn
  pub factory : MsgFactory

abbrev pub check_ack : Result Packable → Result (Unit {0})
check_ack (err e) = err e
check_ack (ok (ack p)) = if p.code == Code.success then ok tt else err handshake_rejected
check_ack (ok other) = err unexpected_payload

abbrev pub check_response : MsgFactory → Result Msg × Conn → Result (Unit {0}) × Link
check_response f (err e, c) = (err e, record { conn = c; factory = f })
check_response f (ok resp_msg, c) = (
  if resp_msg.type == MsgType.handshake_ack
      then check_ack (parse_msg packet_registry resp_msg)
      else err (unexpected_type resp_msg.type),
  record { conn = c; factory = f },
)

abbrev pub check_read : MsgFactory → Option (Result Msg × Conn) → Option (Result (Unit {0}) × Link)
check_read f none = none
check_read f (some read) = some (check_response f read)

-- The connection has no read deadline yet: `none` is a call that never returns.
abbrev pub after_send : MsgFactory → Result (Unit {0}) × Conn → Option (Result (Unit {0}) × Link)
after_send f (err e, c) = some (err e, record { conn = c; factory = f })
after_send f (ok _, c) = check_read f (without_deadline (decode_frame c))

abbrev pub send_handshake : Conn → Result Msg × MsgFactory → Option (Result (Unit {0}) × Link)
send_handshake c (err e, f) = some (err e, record { conn = c; factory = f })
send_handshake c (ok hs_msg, f) = after_send f (write (Frame.encode hs_msg).0 c)

-- `performHandshake` at the time `now`, with the serial number and the token of the configuration
unfoldable pub perform_handshake : ℕ → Bytes → Bytes → Link → Option (Result (Unit {0}) × Link)
perform_handshake now sn token link = send_handshake link.conn (
    new_msg link.factory now MsgType.handshake
      (handshake (record { firmware_version = 1; sn = sn; token = token })))
