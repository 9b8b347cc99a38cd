-- ===== src/Server/Session.antt =====
-- internal/server/server.go: `HandleConnection`, a connection from the handshake to its end. The
-- clock is a function of the number of the message.
pub mod Laws
pub mod Total
pub mod Delivery
pub mod Overlap
use lepg.Base.{
  ℕ, zero, suc, ◌+◌, Bool, List, Option, none, some, [], Bytes, length, ◌==◌, if◌then◌else◌,
}
use lepg.Errors.{Result, ok, err}
use lepg.Timestamp.{from_unix_milli}
use lepg.Conn.{Conn}
use lepg.MsgType
use lepg.Msg.{Msg, decode_frame}
use lepg.Reading.{Reading}
use lepg.Payload.Handshake.{HandshakePayload}
use lepg.Packet.{new_msg_factory}
use lepg.Server.Connections.{Connection, register_connection, remove_connection}
use lepg.Server.World.{ClientDef, World}
use lepg.Server.Auth.{authenticate_client}
use lepg.Server.Upload.{handle_upload, handle_heartbeat}

-- `HandleConnection` returned, or never returns because the gateway stays silent in the handshake, which
-- has no read deadline.
pub data Handled : Type 0 where
  blocked : Handled
  returned : World → Handled

module _ (sha256 : Bytes → Bytes) (serialize_readings : List Reading → Option Bytes)
    (has_router : Bool) (now : ℕ → ℕ) where
  -- The `switch` on the type of a message.
  unfoldable pub handle_message : ℕ → Bytes → Msg → World → World
  handle_message count sn m w =
      if m.type == MsgType.upload
      then handle_upload sha256 serialize_readings has_router (now count) m sn w
      else (if m.type == MsgType.heartbeat then handle_heartbeat (now count) m sn w else w)

  abbrev pub after_frame :
      (World → Option World) → ℕ → Bytes → World → Result Msg × Conn → Option World
  after_frame more count sn w (err e, c) = some (record w { conn = c })
  after_frame more count sn w (ok m, c) = more (handle_message count sn m (record w { conn = c }))

  -- The loop over the messages, on fuel; `count` is `messageCount`.
  unfoldable pub message_loop : ℕ → ℕ → Bytes → World → Option World
  message_loop zero count sn w = none
  message_loop (suc fuel) count sn w =
      after_frame (message_loop fuel (count + 1) sn) (count + 1) sn w (decode_frame w.conn)

  -- The entry that `registerConnection` makes.
  abbrev pub new_connection : Bytes → Bytes → Bytes → Connection
  new_connection sn remote_addr uuid = record {
    device_hash = sn;
    connection_id = uuid;
    server_node = [];
    client_ip = remote_addr;
    connected_at = from_unix_milli (now 0);
    last_heartbeat = from_unix_milli (now 0);
    node_addr = [];
  }

  -- The deferred cleanup.
  abbrev pub cleanup : Bytes → Option World → Option World
  cleanup sn none = none
  cleanup sn (some w) = some (record w { connections = remove_connection sn w.connections })

  abbrev finish : Option World → Option Handled
  finish none = none
  finish (some w) = some (returned w)

  abbrev pub after_handshake :
      ℕ → Bytes → Bytes → Option (Result HandshakePayload × World) → Option Handled
  after_handshake fuel remote_addr uuid none = some blocked
  after_handshake fuel remote_addr uuid (some (err e, w)) = some (returned w)
  after_handshake fuel remote_addr uuid (some (ok hs, w)) = finish (
      cleanup hs.sn (
        message_loop fuel 1 hs.sn (record w {
          connections = register_connection (new_connection hs.sn remote_addr uuid) w.connections;
        })))

  unfoldable pub handle_connection : List ClientDef → ℕ → Bytes → Bytes → World → Option Handled
  handle_connection clients fuel remote_addr uuid w =
      after_handshake fuel remote_addr uuid
        (authenticate_client clients (now 0) (record w { factory = new_msg_factory }))
