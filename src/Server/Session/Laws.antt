-- ===== src/Server/Session/Laws.antt =====
-- A connection from the handshake to its end.
use lepg.Base.{
  ℕ, ◌≡◌, refl, sym, ap, ◌∙◌, subst, Bool, true, false, Bool-cases, inl, inr, List, [], ◌∷◌, ◌++◌,
  append-nil, append_assoc, All, All-append, Option, Bytes, ◌==◌,
}
use lepg.Errors.{Result, ok, err}
use lepg.MsgType
use lepg.Code
use lepg.Msg.{Msg}
use lepg.Reading.{Reading}
use lepg.Packet.{Packable, handshake, ack, upload, heartbeat, notify, parse_msg, packet_registry}
use lepg.Server.Dedup.{exists}
use lepg.Server.Dedup.Synced.{IsSynced, add-IsSynced, exists-IsSynced}
use lepg.Server.Connections.{update_heartbeat}
use lepg.Server.World.{World}
use lepg.Server.World.Ack.{Stored, stored, send_ack-stored}
use lepg.Server.Upload.{upload_key, handle_upload, handle_heartbeat}
use lepg.Server.Upload.Laws.{rows_of, saved_rows, handle_upload-stored}
use lepg.Server.Session.{handle_message}

-- All rows are of the gateway.
abbrev pub Of : Bytes → List (Bytes × List Reading) → Type 0
Of sn = All (λ r. r.0 ≡ sn)

saved_rows-Of :
    (results : List Bool) (sn : Bytes) (rs : List Reading) → Of sn (saved_rows results sn rs)
saved_rows-Of results sn [] = tt
saved_rows-Of [] sn (r ∷ rs) = (refl, tt)
saved_rows-Of (true ∷ results) sn (r ∷ rs) = (refl, tt)
saved_rows-Of (false ∷ results) sn (r ∷ rs) = tt

rows_of-Of : (results : List Bool) (sn : Bytes) (r : Result Packable) → Of sn (rows_of results sn r)
rows_of-Of results sn (ok (upload p)) = saved_rows-Of results sn p.readings
rows_of-Of results sn (ok (handshake p)) = tt
rows_of-Of results sn (ok (ack p)) = tt
rows_of-Of results sn (ok heartbeat) = tt
rows_of-Of results sn (ok (notify p)) = tt
rows_of-Of results sn (err e) = tt

-- The store has new rows at the end at most, all of the gateway, and the cache is in order.
pub record Follows (sn : Bytes) (w w' : World) : Type 0 where
  pub rows : List (Bytes × List Reading)
  pub saved : w'.saved ≡ w.saved ++ rows
  pub of_gateway : Of sn rows
  pub synced : IsSynced w'.dedup

pub Follows-trans : (sn : Bytes) (a b c : World) → Follows sn a b → Follows sn b c → Follows sn a c
Follows-trans sn a b c f g = record {
  rows = f.rows ++ g.rows;
  saved = g.saved ∙ ap (λ x. x ++ g.rows) f.saved ∙ append_assoc a.saved f.rows g.rows;
  of_gateway = All-append (λ r. r.0 ≡ sn) f.rows g.rows f.of_gateway g.of_gateway;
  synced = g.synced;
}

-- The same store and the same cache.
pub Follows-same :
    (sn : Bytes) (w w' : World) → IsSynced w.dedup → stored w' ≡ stored w → Follows sn w w'
Follows-same sn w w' s e = record {
  rows = [];
  saved = ap (λ (x : Stored). x.0) e ∙ sym (append-nil w.saved);
  of_gateway = tt;
  synced = subst IsSynced (sym (ap (λ (x : Stored). x.1) e)) s;
}

handle_heartbeat-stored :
    (now : ℕ) (m : Msg) (sn : Bytes) (w : World) → stored (handle_heartbeat now m sn w) ≡ stored w
unfolding handle_heartbeat
handle_heartbeat-stored now m sn w =
    send_ack-stored now MsgType.heartbeat_ack m.msg_id Code.success
      (record w { connections = (update_heartbeat now sn w.connections).1 })

module _ (sha256 : Bytes → Bytes) (serialize_readings : List Reading → Option Bytes)
    (has_router : Bool) where
  handle_upload-Follows :
      (now : ℕ) (m : Msg) (sn : Bytes) (w : World)
      → IsSynced w.dedup
      → Follows sn w (handle_upload sha256 serialize_readings has_router now m sn w)
        × ((handle_upload sha256 serialize_readings has_router now m sn w).conn.incoming
            ≡ w.conn.incoming)
  handle_upload-Follows now m sn w s =
      let key : Bytes = upload_key sha256 sn m in
      let left = handle_upload-stored sha256 serialize_readings has_router now m sn w in
      elim (Bool-cases (exists key w.dedup).0) [
        | inl seen ↦
            let e = rw seen at left in
            (
              record {
                rows = [];
                saved = ap (λ (x : Stored). x.0) e ∙ sym (append-nil w.saved);
                of_gateway = tt;
                synced =
                    subst IsSynced (sym (ap (λ (x : Stored). x.1) e))
                      (exists-IsSynced key w.dedup s);
              },
              ap (λ (x : Stored). x.2) e,
            )
        | inr unseen ↦
            let e = rw unseen at left in
            (
              record {
                rows = rows_of w.save_results sn (parse_msg packet_registry m);
                saved = ap (λ (x : Stored). x.0) e;
                of_gateway = rows_of-Of w.save_results sn (parse_msg packet_registry m);
                synced =
                    subst IsSynced (sym (ap (λ (x : Stored). x.1) e))
                      (add-IsSynced key (exists key w.dedup).1 (exists-IsSynced key w.dedup s));
              },
              ap (λ (x : Stored). x.2) e,
            )
      ]

  module _ (now : ℕ → ℕ) where
    pub handle_message-Follows :
        (count : ℕ) (sn : Bytes) (m : Msg) (w : World)
        → IsSynced w.dedup
        → Follows sn w (handle_message sha256 serialize_readings has_router now count sn m w)
          × ((handle_message sha256 serialize_readings has_router now count sn m w).conn.incoming
              ≡ w.conn.incoming)
    unfolding handle_message
    handle_message-Follows count sn m w s = elim (Bool-cases (m.type == MsgType.upload)) [
      | inl is_upload ↦ rw is_upload (handle_upload-Follows (now count) m sn w s)
      | inr other ↦ elim (Bool-cases (m.type == MsgType.heartbeat)) [
        | inl is_heartbeat ↦
            let e = handle_heartbeat-stored (now count) m sn w in
            rw (other, is_heartbeat) (Follows-same sn w _ s e, ap (λ (x : Stored). x.2) e)
        | inr neither ↦ rw (other, neither) (Follows-same sn w w s refl, refl)
      ]
    ]
