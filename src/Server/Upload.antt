-- ===== src/Server/Upload.antt =====
-- internal/server/server.go: `handleUpload` and `handleHeartbeat`. SHA-256 (crypto/sha256) and the
-- JSON text of an upload (`serializeReadings`, by encoding/json) are parameters.
pub mod Laws
use lepg.Base.{
  ℕ, Bool, true, false, List, [], ◌∷◌, ◌++◌, map, Option, none, some, Bytes, StringMap, codes,
  if◌then◌else◌,
}
use lepg.Errors.{Result, ok, err}
use lepg.MsgType
use lepg.Code
use lepg.Msg.{Msg}
use lepg.Reading.{Reading}
use lepg.Payload.Upload.{UploadPayload}
use lepg.Packet.{Packable, upload, parse_msg, packet_registry}
use lepg.Server.Dedup.{DedupCache, exists, add}
use lepg.Server.Connections.{update_heartbeat}
use lepg.Server.Grouping.{group_readings}
use lepg.Server.World.{World, send_ack}

-- `s.SaveReadings(...)`
abbrev pub save_with : List Bool → Bytes → List Reading → World → Bool × World
save_with [] sn rs w = (true, record w { saved = w.saved ++ ((sn, rs) ∷ []) })
save_with (true ∷ more) sn rs w =
    (true, record w { saved = w.saved ++ ((sn, rs) ∷ []); save_results = more })
save_with (false ∷ more) sn rs w = (false, record w { save_results = more })

abbrev pub save_readings : Bytes → List Reading → World → Bool × World
save_readings sn rs w = save_with w.save_results sn rs w

abbrev pub publish : Bytes → Option Bytes → World → World
publish sn none w = w
publish sn (some payload) w = record w { published = w.published ++ ((sn, payload) ∷ []) }

-- `router.Send(deviceKey, devReadings)` for every group; Go's order over a map is any order.
unfoldable pub route : Bool → Bytes → List Reading → World → World
route has_router sn rs w =
    if has_router
    then record w {
      routed = w.routed ++ map (λ g. (sn ++ (codes "-" ++ g.0), g.1)) (group_readings rs);
    }
    else w

-- `sn + ":" + payloadKey(message.Payload)`
abbrev pub upload_key : (Bytes → Bytes) → Bytes → Msg → Bytes
upload_key sha256 sn m = sn ++ (codes ":" ++ sha256 m.payload)

module _ (sha256 : Bytes → Bytes) (serialize_readings : List Reading → Option Bytes)
    (has_router : Bool) where
  abbrev pub after_save : ℕ → ℕ → Bytes → List Reading → Bool × World → World
  after_save now id sn rs (false, w) = send_ack now MsgType.upload_ack id Code.failed w
  after_save now id sn rs (true, w) =
      route has_router sn rs
        (publish sn (serialize_readings rs) (send_ack now MsgType.upload_ack id Code.success w))

  unfoldable pub store_upload : ℕ → ℕ → Bytes → List Reading → World → World
  store_upload now id sn [] w = w
  store_upload now id sn (r ∷ rs) w = after_save now id sn (r ∷ rs) (save_readings sn (r ∷ rs) w)

  abbrev pub accept_upload : ℕ → ℕ → Bytes → Result Packable → World → World
  accept_upload now id sn (ok (upload p)) w = store_upload now id sn p.readings w
  accept_upload now id sn (ok other) w = send_ack now MsgType.upload_ack id Code.failed w
  accept_upload now id sn (err e) w = send_ack now MsgType.upload_ack id Code.failed w

  abbrev pub when_seen : ℕ → Msg → Bytes → World → Bool × DedupCache → World
  when_seen now m sn w (true, dedup) =
      send_ack now MsgType.upload_ack m.msg_id Code.success (record w { dedup = dedup })
  when_seen now m sn w (false, dedup) =
      accept_upload now m.msg_id sn (parse_msg packet_registry m)
        (record w { dedup = add (upload_key sha256 sn m) dedup })

  unfoldable pub handle_upload : ℕ → Msg → Bytes → World → World
  handle_upload now m sn w = when_seen now m sn w (exists (upload_key sha256 sn m) w.dedup)

unfoldable pub handle_heartbeat : ℕ → Msg → Bytes → World → World
handle_heartbeat now m sn w =
    let w' : World = record w { connections = (update_heartbeat now sn w.connections).1 } in
    send_ack now MsgType.heartbeat_ack m.msg_id Code.success w'
