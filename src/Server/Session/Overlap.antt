-- ===== src/Server/Session/Overlap.antt =====
-- Two connections of one gateway: the older one's end meets the newer one's registration.
use lepg.Base.{
  ℕ, ◌<◌, ◌≡◌, ap, ◌∙◌, refl, Bool, List, none, Option, some, Bytes, IsBytes, length, bytes_eq_refl,
  find-put,
}
use lepg.MsgType
use lepg.Code
use lepg.Conn.{Conn}
use lepg.Msg.{Msg}
use lepg.Reading.{Reading}
use lepg.Packet.{MsgFactory}
use lepg.Server.Dedup.Synced.{IsSynced}
use lepg.Server.Connections.{
  Connection, Connections, register_connection, update_heartbeat, get_connection, not_found,
  remove_connection,
}
use lepg.Server.World.{World}
use lepg.Server.World.Ack.{send_ack-same}
use lepg.Server.Upload.{handle_heartbeat}
use lepg.Server.Session.{message_loop, new_connection, cleanup}
use lepg.Server.Session.Total.{message_loop-total, removed}

registered :
    (conn : Connection) (m : Connections)
    → get_connection conn.device_hash (register_connection conn m) ≡ some conn
unfolding get_connection register_connection
registered conn m =
    find-put conn.device_hash conn.device_hash conn m ∙ rw (bytes_eq_refl conn.device_hash) refl

update_heartbeat-missing :
    (now : ℕ) (sn : Bytes) (m : Connections)
    → get_connection sn m ≡ none
    → update_heartbeat now sn m ≡ (not_found, m)
unfolding get_connection update_heartbeat
update_heartbeat-missing now sn m gone = rw gone refl

handle_heartbeat-missing :
    (now : ℕ) (m : Msg) (sn : Bytes) (w : World)
    → get_connection sn w.connections ≡ none
    → (handle_heartbeat now m sn w).connections ≡ w.connections
unfolding handle_heartbeat
handle_heartbeat-missing now m sn w gone =
    let beaten : World = record w { connections = (update_heartbeat now sn w.connections).1 } in
    let s = send_ack-same now MsgType.heartbeat_ack m.msg_id Code.success beaten in
    s.connections ∙ ap (λ x. x.1) (update_heartbeat-missing now sn w.connections gone)

module _ (sha256 : Bytes → Bytes) (serialize_readings : List Reading → Option Bytes)
    (has_router : Bool) (now : ℕ → ℕ) where
  -- While the loop of a connection runs, its gateway connects again and is registered. When the older
  -- loop then comes to its end, which it does on every stream of bytes, the cleanup takes the newer
  -- registration away, and no heartbeat of the newer connection brings it back. The cache is in order,
  -- and the fuel is more than the stream's bytes.
  pub older_removes_newer :
      (fuel count : ℕ) (sn remote_addr uuid : Bytes) (w : World)
      → IsBytes w.conn.incoming
      → length w.conn.incoming < fuel
      → IsSynced w.dedup
      → let newer = new_connection sha256 serialize_readings has_router now sn remote_addr uuid in
        let both : World = record w { connections = register_connection newer w.connections } in
        (get_connection sn both.connections ≡ some newer)
        × ((w' : World) × (cleanup sha256 serialize_readings has_router now sn
                (message_loop sha256 serialize_readings has_router now fuel count sn both)
              ≡ some w')
            × (get_connection sn w'.connections ≡ none)
            × ((later : ℕ) (m : Msg) (c : Conn) (f : MsgFactory)
                → (handle_heartbeat later m sn (record w' { conn = c; factory = f })).connections
                  ≡ w'.connections))
  unfolding get_connection
  older_removes_newer fuel count sn remote_addr uuid w h enough s =
      let newer : Connection =
        new_connection sha256 serialize_readings has_router now sn remote_addr uuid in
      let both : World = record w { connections = register_connection newer w.connections } in
      let (last, ends, _) =
        message_loop-total sha256 serialize_readings has_router now fuel count sn both h enough s in
      let gone = removed sn last.connections in
      (
        registered newer w.connections,
        (
          record last { connections = remove_connection sn last.connections },
          ap (cleanup sha256 serialize_readings has_router now sn) ends,
          gone,
          λ later m c f.
              handle_heartbeat-missing later m sn
                (record last {
                  connections = remove_connection sn last.connections;
                  conn = c;
                  factory = f;
                })
                gone,
        ),
      )
