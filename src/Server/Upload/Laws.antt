-- ===== src/Server/Upload/Laws.antt =====
-- What an upload leaves behind, and what its repetition does.
use lepg.Base.{
  ℕ, ◌<◌, ◌≡◌, refl, ap, ◌∙◌, arith, Bool, true, false, Bool-cases, inl, inr, List, [], ◌∷◌, ◌++◌,
  append-nil, Option, none, some, Bytes, if◌then◌else◌,
}
use lepg.Errors.{Result, ok, err}
use lepg.MsgType
use lepg.Code
use lepg.Msg.{Msg}
use lepg.Reading.{Reading}
use lepg.Packet.{Packable, handshake, ack, upload, heartbeat, notify, parse_msg, packet_registry}
use lepg.Server.Dedup.{DedupCache, exists, add}
use lepg.Server.Dedup.Synced.{IsSynced}
use lepg.Server.Dedup.Window.{exists-exists, exists-add-exists}
use lepg.Server.World.{World, send_ack}
use lepg.Server.World.Ack.{Stored, stored, send_ack-stored}
use lepg.Server.Upload.{
  save_with, save_readings, publish, route, upload_key, after_save, store_upload, accept_upload,
  when_seen, handle_upload,
}

-- Neither the broker nor the router is seen by the store.
route-stored :
    (has_router : Bool) (sn : Bytes) (rs : List Reading) (w : World)
    → stored (route has_router sn rs w) ≡ stored w
unfolding route
route-stored true sn rs w = refl
route-stored false sn rs w = refl

publish-stored : (sn : Bytes) (o : Option Bytes) (w : World) → stored (publish sn o w) ≡ stored w
publish-stored sn none w = refl
publish-stored sn (some payload) w = refl

-- What a save adds to the store: the readings, if the store takes them and there are any.
abbrev pub saved_rows : List Bool → Bytes → List Reading → List (Bytes × List Reading)
saved_rows results sn [] = []
saved_rows [] sn (r ∷ rs) = (sn, r ∷ rs) ∷ []
saved_rows (true ∷ results) sn (r ∷ rs) = (sn, r ∷ rs) ∷ []
saved_rows (false ∷ results) sn (r ∷ rs) = []

-- The rows of a parsed message.
abbrev pub rows_of : List Bool → Bytes → Result Packable → List (Bytes × List Reading)
rows_of results sn (ok (upload p)) = saved_rows results sn p.readings
rows_of results sn (ok other) = []
rows_of results sn (err e) = []

no_readings :
    (more : List Bool) (sn : Bytes) (rs : List Reading) → saved_rows (false ∷ more) sn rs ≡ []
no_readings more sn [] = refl
no_readings more sn (r ∷ rs) = refl

no_rows : (more : List Bool) (sn : Bytes) (r : Result Packable) → rows_of (false ∷ more) sn r ≡ []
no_rows more sn (ok (upload p)) = no_readings more sn p.readings
no_rows more sn (ok (handshake p)) = refl
no_rows more sn (ok (ack p)) = refl
no_rows more sn (ok heartbeat) = refl
no_rows more sn (ok (notify p)) = refl
no_rows more sn (err e) = refl

module _ (sha256 : Bytes → Bytes) (serialize_readings : List Reading → Option Bytes)
    (has_router : Bool) where
  after_save-stored :
      (now id : ℕ) (sn : Bytes) (rs : List Reading) (b : Bool) (w : World)
      → stored (after_save sha256 serialize_readings has_router now id sn rs (b, w)) ≡ stored w
  after_save-stored now id sn rs false w = send_ack-stored now MsgType.upload_ack id Code.failed w
  after_save-stored now id sn rs true w =
      let acked : World = send_ack now MsgType.upload_ack id Code.success w in
      route-stored has_router sn rs (publish sn (serialize_readings rs) acked)
      ∙ publish-stored sn (serialize_readings rs) acked
      ∙ send_ack-stored now MsgType.upload_ack id Code.success w

  save_with-stored :
      (results : List Bool) (sn : Bytes) (r : Reading) (rs : List Reading) (w : World)
      → stored (save_with results sn (r ∷ rs) w).1
        ≡ (w.saved ++ saved_rows results sn (r ∷ rs), w.dedup, w.conn.incoming)
  save_with-stored [] sn r rs w = refl
  save_with-stored (true ∷ more) sn r rs w = refl
  save_with-stored (false ∷ more) sn r rs w = rw append-nil

  store_upload-stored :
      (now id : ℕ) (sn : Bytes) (rs : List Reading) (w : World)
      → stored (store_upload sha256 serialize_readings has_router now id sn rs w)
        ≡ (w.saved ++ saved_rows w.save_results sn rs, w.dedup, w.conn.incoming)
  unfolding store_upload
  store_upload-stored now id sn [] w = rw append-nil
  store_upload-stored now id sn (r ∷ rs) w =
      let (b, w') = save_readings sn (r ∷ rs) w in
      after_save-stored now id sn (r ∷ rs) b w' ∙ save_with-stored w.save_results sn r rs w

  refused-stored :
      (now id : ℕ) (w : World)
      → stored (send_ack now MsgType.upload_ack id Code.failed w)
        ≡ (w.saved ++ [], w.dedup, w.conn.incoming)
  refused-stored now id w = send_ack-stored now MsgType.upload_ack id Code.failed w ∙ rw append-nil

  accept_upload-stored :
      (now id : ℕ) (sn : Bytes) (r : Result Packable) (w : World)
      → stored (accept_upload sha256 serialize_readings has_router now id sn r w)
        ≡ (w.saved ++ rows_of w.save_results sn r, w.dedup, w.conn.incoming)
  accept_upload-stored now id sn (ok (upload p)) w = store_upload-stored now id sn p.readings w
  accept_upload-stored now id sn (ok (handshake p)) w = refused-stored now id w
  accept_upload-stored now id sn (ok (ack p)) w = refused-stored now id w
  accept_upload-stored now id sn (ok heartbeat) w = refused-stored now id w
  accept_upload-stored now id sn (ok (notify p)) w = refused-stored now id w
  accept_upload-stored now id sn (err e) w = refused-stored now id w

  when_seen-stored :
      (now : ℕ) (m : Msg) (sn : Bytes) (w : World) (seen : Bool × DedupCache)
      → stored (when_seen sha256 serialize_readings has_router now m sn w seen) ≡ (
          if seen.0 then (w.saved, seen.1, w.conn.incoming) else (
            w.saved ++ rows_of w.save_results sn (parse_msg packet_registry m),
            add (upload_key sha256 sn m) seen.1,
            w.conn.incoming,
          ))
  when_seen-stored now m sn w (true, d) =
      send_ack-stored now MsgType.upload_ack m.msg_id Code.success (record w { dedup = d })
  when_seen-stored now m sn w (false, d) =
      accept_upload-stored now m.msg_id sn (parse_msg packet_registry m)
        (record w { dedup = add (upload_key sha256 sn m) d })

  -- What `handleUpload` leaves in the store and in the cache, on every path: nothing new for an
  -- upload that the cache knows; otherwise the key is in the cache, and the readings are in the
  -- store exactly if the payload parses to an upload, it has readings, and the store takes them.
  pub handle_upload-stored :
      (now : ℕ) (m : Msg) (sn : Bytes) (w : World)
      → let key = upload_key sha256 sn m in
        stored (handle_upload sha256 serialize_readings has_router now m sn w) ≡ (
          if (exists key w.dedup).0 then (w.saved, (exists key w.dedup).1, w.conn.incoming) else (
            w.saved ++ rows_of w.save_results sn (parse_msg packet_registry m),
            add key (exists key w.dedup).1,
            w.conn.incoming,
          ))
  unfolding handle_upload
  handle_upload-stored now m sn w =
      when_seen-stored now m sn w (exists (upload_key sha256 sn m) w.dedup)

  -- The cache knows the key of an upload that was handled.
  handled-exists :
      (now : ℕ) (m : Msg) (sn : Bytes) (w : World)
      → IsSynced w.dedup
      → 0 < w.dedup.capacity
      → (exists
          (upload_key sha256 sn m)
          (handle_upload sha256 serialize_readings has_router now m sn w).dedup).0
        ≡ true
  handled-exists now m sn w s room =
      let key : Bytes = upload_key sha256 sn m in
      let left = handle_upload-stored now m sn w in
      elim (Bool-cases (exists key w.dedup).0) [
        | inl seen ↦
            let dedup = ap (λ (x : Stored). x.1) (rw seen at left) in
            rw dedup (exists-exists key w.dedup s seen)
        | inr unseen ↦
            let dedup = ap (λ (x : Stored). x.1) (rw unseen at left) in
            rw dedup (exists-add-exists key w.dedup s room)
      ]

  seen_reply :
      (now : ℕ) (m : Msg) (sn : Bytes) (w : World)
      → (exists (upload_key sha256 sn m) w.dedup).0 ≡ true
      → handle_upload sha256 serialize_readings has_router now m sn w
        ≡ send_ack now MsgType.upload_ack m.msg_id Code.success
            (record w { dedup = (exists (upload_key sha256 sn m) w.dedup).1 })
  unfolding handle_upload
  seen_reply now m sn w e =
      ap
        (λ (b : Bool).
          when_seen sha256 serialize_readings has_router now m sn w
            (b, (exists (upload_key sha256 sn m) w.dedup).1))
        e

  -- A gateway that repeats an upload, because the acknowledgement did not reach it, gets Ok for it,
  -- and the store is as it was after the first time: the second time does nothing but look up the
  -- key and acknowledge. The cache is in order and has room for a key.
  pub handle_upload-repeated :
      (now later : ℕ) (m : Msg) (sn : Bytes) (w : World)
      → IsSynced w.dedup
      → 0 < w.dedup.capacity
      → let first = handle_upload sha256 serialize_readings has_router now m sn w in
        let second = handle_upload sha256 serialize_readings has_router later m sn first in
        (second
          ≡ send_ack later MsgType.upload_ack m.msg_id Code.success
              (record first { dedup = (exists (upload_key sha256 sn m) first.dedup).1 }))
        × (second.saved ≡ first.saved)
  handle_upload-repeated now later m sn w s room =
      let first : World = handle_upload sha256 serialize_readings has_router now m sn w in
      let known = handled-exists now m sn w s room in
      let left = handle_upload-stored later m sn first in
      (seen_reply later m sn first known, ap (λ (x : Stored). x.0) (rw known at left))

  -- Where the store is going to refuse the next save, an upload and its repetition leave nothing
  -- new in the store, and yet the repetition is acknowledged with Ok: the key went into the cache
  -- before the save. The cache is in order and has room for a key.
  pub failed_save_lost :
      (now later : ℕ) (m : Msg) (sn : Bytes) (w : World) (more : List Bool)
      → IsSynced w.dedup
      → 0 < w.dedup.capacity
      → w.save_results ≡ false ∷ more
      → let first = handle_upload sha256 serialize_readings has_router now m sn w in
        let second = handle_upload sha256 serialize_readings has_router later m sn first in
        (second
          ≡ send_ack later MsgType.upload_ack m.msg_id Code.success
              (record first { dedup = (exists (upload_key sha256 sn m) first.dedup).1 }))
        × (second.saved ≡ w.saved)
  failed_save_lost now later m sn w more s room fails =
      let (reply, same) = handle_upload-repeated now later m sn w s room in
      let left = handle_upload-stored now m sn w in
      let nothing : rows_of w.save_results sn (parse_msg packet_registry m) ≡ [] =
        rw fails (no_rows more sn (parse_msg packet_registry m)) in
      let unsaved = ap (λ (x : Stored). x.0) left in
      (reply, same ∙ unsaved ∙ rw (nothing, append-nil) (ground arith))
