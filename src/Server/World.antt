-- ===== src/Server/World.antt =====
-- internal/server/server.go: what a connection's handler changes, and the acknowledgement that it
-- sends.
pub mod Ack
use lepg.Base.{ℕ, Bool, List, [], ◌++◌, Bytes, StringMap, ◌==◌, if◌then◌else◌}
use lepg.Errors.{Result, ok, err}
use lepg.Conn.{Conn, write}
use lepg.Msg as Frame
use lepg.Msg.{Msg}
use lepg.Reading.{Reading}
use lepg.Payload.Ack.{AckPayload}
use lepg.Packet.{MsgFactory, ack, new_msg}
use lepg.Server.Dedup.{DedupCache}
use lepg.Server.Connections.{Connections}

-- `ClientDef`
pub record ClientDef : Type 0 where
  pub sn : Bytes
  pub token : Bytes
  pub description : Bytes

-- The connection and its factory of messages; `uploadDedup` and the connection manager; what the
-- store has saved, and the results of its saves to come (a save that the list does not name
-- succeeds); the payloads handed to the publisher, and the readings handed to the output router.
pub record World : Type 0 where
  pub conn : Conn
  pub factory : MsgFactory
  pub dedup : DedupCache
  pub connections : Connections
  pub saved : List (Bytes × List Reading)
  pub save_results : List Bool
  pub published : List (Bytes × Bytes)
  pub routed : StringMap (List Reading)

abbrev pub send_encoded : World → Bytes × Msg → World
send_encoded w (encoded, m) =
    if m.checksum == 0 then w else record w { conn = (write encoded w.conn).1 }

abbrev pub send_built : World → Result Msg × MsgFactory → World
send_built w (err e, f) = record w { factory = f }
send_built w (ok resp, f) = send_encoded (record w { factory = f }) (Frame.encode resp)

-- `sendAck`
unfoldable pub send_ack : ℕ → ℕ → ℕ → ℕ → World → World
send_ack now ack_type req_msg_id code w =
    send_built w
      (new_msg w.factory now ack_type (ack (record { msg_id = req_msg_id; code = code })))
