-- ===== src/Server/Session/Delivery.antt =====
-- Uploads on their way from the factory of a gateway through the server's loop into the store.
use lepg.Base.{
  ℕ, suc, ◌+◌, ◌<◌, ◌≡◌, refl, sym, ap, subst, ◌∙◌, arith, Bool, true, false, List, [], ◌∷◌, ◌++◌,
  append-nil, append_assoc, All, Option, none, some, Bytes, length, ◌==◌, if◌then◌else◌,
}
use lepg.Errors.{Result, ok, err}
use lepg.MsgType
use lepg.Code
use lepg.Conn.{Conn}
use lepg.Msg as Frame
use lepg.Msg.{Msg, decode_frame}
use lepg.Msg.RoundTrip.{received}
use lepg.Reading.{Reading}
use lepg.Payload.Upload.{UploadPayload}
use lepg.Packet.{
  Packable, handshake, ack, upload, heartbeat, notify, MsgFactory, new_msg, parse_msg,
  packet_registry,
}
use lepg.Packet.Widths.{IsPackable}
use lepg.Packet.Transport.{new_msg-eq-ok, parse_msg-decode_frame-new_msg}
use lepg.Server.Dedup.{DedupCache, exists, add}
use lepg.Server.World.{World, send_ack}
use lepg.Server.World.Ack.{Stored, stored, send_ack-same}
use lepg.Server.Upload.{
  save_with, publish, route, upload_key, after_save, store_upload, accept_upload, when_seen,
  handle_upload, handle_heartbeat,
}
use lepg.Server.Upload.Laws.{saved_rows, rows_of, handle_upload-stored}
use lepg.Server.Session.{handle_message, message_loop, after_frame}

-- A payload, and the message that a gateway has built of it.
abbrev pub Sent : Type 0
Sent = UploadPayload × Msg

pub record IsSent (u : Sent) : Type 0 where
  pub factory : MsgFactory
  pub next_factory : MsgFactory
  pub at : ℕ
  pub built : new_msg factory at MsgType.upload (upload u.0) ≡ (ok u.1, next_factory)
  pub fields : IsPackable (upload u.0)
  pub short : length u.1.payload < 65536

-- The frames of the messages, one behind the other.
abbrev pub frames : List Sent → Bytes
frames [] = []
frames (u ∷ us) = (Frame.encode u.1).0 ++ frames us

-- The readings of the uploads, in order; an upload without readings has no row.
abbrev pub rows_sent : Bytes → List Sent → List (Bytes × List Reading)
rows_sent sn [] = []
rows_sent sn (u ∷ us) = saved_rows [] sn u.0.readings ++ rows_sent sn us

-- No refusal of the store is to come.
abbrev pub IsHealthy : World → Type 0
IsHealthy w = w.save_results ≡ []

module _ (sha256 : Bytes → Bytes) (serialize_readings : List Reading → Option Bytes)
    (has_router : Bool) where
  send_ack-IsHealthy :
      (now t id code : ℕ) (w : World) → IsHealthy w → IsHealthy (send_ack now t id code w)
  send_ack-IsHealthy now t id code w h = let s = send_ack-same now t id code w in s.save_results ∙ h

  route-IsHealthy :
      (b : Bool) (sn : Bytes) (rs : List Reading) (w : World)
      → IsHealthy w
      → IsHealthy (route b sn rs w)
  unfolding route
  route-IsHealthy true sn rs w h = h
  route-IsHealthy false sn rs w h = h

  publish-IsHealthy :
      (sn : Bytes) (o : Option Bytes) (w : World) → IsHealthy w → IsHealthy (publish sn o w)
  publish-IsHealthy sn none w h = h
  publish-IsHealthy sn (some payload) w h = h

  after_save-IsHealthy :
      (now id : ℕ) (sn : Bytes) (rs : List Reading) (b : Bool) (w : World)
      → IsHealthy w
      → IsHealthy (after_save sha256 serialize_readings has_router now id sn rs (b, w))
  after_save-IsHealthy now id sn rs false w h =
      send_ack-IsHealthy now MsgType.upload_ack id Code.failed w h
  after_save-IsHealthy now id sn rs true w h =
      let acked : World = send_ack now MsgType.upload_ack id Code.success w in
      route-IsHealthy has_router sn rs (publish sn (serialize_readings rs) acked) (
        publish-IsHealthy sn (serialize_readings rs) acked
          (send_ack-IsHealthy now MsgType.upload_ack id Code.success w h))

  save_with-IsHealthy :
      (results : List Bool) (sn : Bytes) (rs : List Reading) (w : World)
      → results ≡ []
      → IsHealthy w
      → IsHealthy (save_with results sn rs w).1
  save_with-IsHealthy [] sn rs w e h = h
  save_with-IsHealthy (true ∷ more) sn rs w e h = cc
  save_with-IsHealthy (false ∷ more) sn rs w e h = cc

  store_upload-IsHealthy :
      (now id : ℕ) (sn : Bytes) (rs : List Reading) (w : World)
      → IsHealthy w
      → IsHealthy (store_upload sha256 serialize_readings has_router now id sn rs w)
  unfolding store_upload
  store_upload-IsHealthy now id sn [] w h = h
  store_upload-IsHealthy now id sn (r ∷ rs) w h =
      let (b, w') = save_with w.save_results sn (r ∷ rs) w in
      after_save-IsHealthy now id sn (r ∷ rs) b w'
        (save_with-IsHealthy w.save_results sn (r ∷ rs) w h h)

  accept_upload-IsHealthy :
      (now id : ℕ) (sn : Bytes) (r : Result Packable) (w : World)
      → IsHealthy w
      → IsHealthy (accept_upload sha256 serialize_readings has_router now id sn r w)
  accept_upload-IsHealthy now id sn (ok (upload p)) w h =
      store_upload-IsHealthy now id sn p.readings w h
  accept_upload-IsHealthy now id sn (ok (handshake p)) w h =
      send_ack-IsHealthy now MsgType.upload_ack id Code.failed w h
  accept_upload-IsHealthy now id sn (ok (ack p)) w h =
      send_ack-IsHealthy now MsgType.upload_ack id Code.failed w h
  accept_upload-IsHealthy now id sn (ok heartbeat) w h =
      send_ack-IsHealthy now MsgType.upload_ack id Code.failed w h
  accept_upload-IsHealthy now id sn (ok (notify p)) w h =
      send_ack-IsHealthy now MsgType.upload_ack id Code.failed w h
  accept_upload-IsHealthy now id sn (err e) w h =
      send_ack-IsHealthy now MsgType.upload_ack id Code.failed w h

  when_seen-IsHealthy :
      (now : ℕ) (m : Msg) (sn : Bytes) (w : World) (seen : Bool × DedupCache)
      → IsHealthy w
      → IsHealthy (when_seen sha256 serialize_readings has_router now m sn w seen)
  when_seen-IsHealthy now m sn w (true, d) h =
      send_ack-IsHealthy now MsgType.upload_ack m.msg_id Code.success (record w { dedup = d }) h
  when_seen-IsHealthy now m sn w (false, d) h =
      accept_upload-IsHealthy now m.msg_id sn (parse_msg packet_registry m)
        (record w { dedup = add (upload_key sha256 sn m) d }) h

  handle_upload-IsHealthy :
      (now : ℕ) (m : Msg) (sn : Bytes) (w : World)
      → IsHealthy w
      → IsHealthy (handle_upload sha256 serialize_readings has_router now m sn w)
  unfolding handle_upload
  handle_upload-IsHealthy now m sn w h =
      when_seen-IsHealthy now m sn w (exists (upload_key sha256 sn m) w.dedup) h

  -- What a new upload leaves behind where the store takes everything.
  handle_upload_new :
      (now : ℕ) (m : Msg) (sn : Bytes) (p : UploadPayload) (w : World)
      → IsHealthy w
      → (exists (upload_key sha256 sn m) w.dedup).0 ≡ false
      → parse_msg packet_registry m ≡ ok (upload p)
      → let out = handle_upload sha256 serialize_readings has_router now m sn w in
        IsHealthy out
        × (stored out ≡ (
          w.saved ++ saved_rows [] sn p.readings,
          add (upload_key sha256 sn m) (exists (upload_key sha256 sn m) w.dedup).1,
          w.conn.incoming,
        ))
  handle_upload_new now m sn p w h unseen parsed =
      let key : Bytes = upload_key sha256 sn m in
      let rows : rows_of w.save_results sn (parse_msg packet_registry m)
          ≡ saved_rows [] sn p.readings =
        rw (parsed, h) refl in
      let left = handle_upload-stored sha256 serialize_readings has_router now m sn w in
      (
        handle_upload-IsHealthy now m sn w h,
        rw unseen at left
            ∙ ap
                (λ (rs : List (Bytes × List Reading)).
                  (w.saved ++ rs, add key (exists key w.dedup).1, w.conn.incoming))
                rows,
      )

  -- None of the uploads is known to the cache when it arrives.
  abbrev pub Unseen : Bytes → DedupCache → List Sent → Type 0
  Unseen sn d [] = Unit {0}
  Unseen sn d (u ∷ us) =
      let key : Bytes = upload_key sha256 sn u.1 in
      ((exists key d).0 ≡ false) × Unseen sn (add key (exists key d).1) us

  module _ (now : ℕ → ℕ) where
    -- The message of a gateway goes to `handleUpload`.
    handle_message_upload :
        (count : ℕ) (sn : Bytes) (m : Msg) (w : World)
        → m.type ≡ MsgType.upload
        → handle_message sha256 serialize_readings has_router now count sn m w
          ≡ handle_upload sha256 serialize_readings has_router (now count) m sn w
    unfolding handle_message
    handle_message_upload count sn m w is_type =
        ap
          (λ (t : ℕ).
            if t == MsgType.upload
            then handle_upload sha256 serialize_readings has_router (now count) m sn w
            else (if t == MsgType.heartbeat then handle_heartbeat (now count) m sn w else w))
          is_type

    -- One turn of the loop.
    message_loop_step :
        (fuel count : ℕ) (sn : Bytes) (m : Msg) (c : Conn) (w : World)
        → decode_frame w.conn ≡ (ok m, c)
        → message_loop sha256 serialize_readings has_router now (suc fuel) count sn w
          ≡ message_loop sha256 serialize_readings has_router now fuel (count + 1) sn (
              handle_message sha256 serialize_readings has_router now
                (count + 1)
                sn
                m
                (record w { conn = c }))
    unfolding message_loop
    message_loop_step fuel count sn m c w e =
        ap
          (after_frame sha256 serialize_readings has_router now
            (message_loop sha256 serialize_readings has_router now fuel (count + 1) sn) (count + 1)
            sn w)
          e

    -- The turn that reads one upload.
    upload_turn :
        (fuel count : ℕ) (sn : Bytes) (u : Sent) (rest : Bytes) (w : World)
        → IsSent u
        → IsHealthy w
        → (exists (upload_key sha256 sn u.1) w.dedup).0 ≡ false
        → w.conn.incoming ≡ (Frame.encode u.1).0 ++ rest
        → (out : World) × (message_loop sha256 serialize_readings has_router now
              (suc fuel)
              count
              sn
              w
            ≡ message_loop sha256 serialize_readings has_router now fuel (count + 1) sn out)
          × IsHealthy out
          × (stored out ≡ (
            w.saved ++ saved_rows [] sn u.0.readings,
            add (upload_key sha256 sn u.1) (exists (upload_key sha256 sn u.1) w.dedup).1,
            rest,
          ))
    upload_turn fuel count sn (p, m) rest w s h unseen arrives =
        let (read, parsed) =
          parse_msg-decode_frame-new_msg s.factory s.next_factory s.at MsgType.upload (upload p) m
            rest w.conn s.fields refl s.built s.short arrives in
        let (_, made, _) =
          new_msg-eq-ok s.factory s.next_factory s.at MsgType.upload (upload p) m s.built in
        let at_upload : World = record w { conn = record w.conn { incoming = rest } } in
        let (healthy, left) =
          handle_upload_new (now (count + 1)) (received m) sn p at_upload h unseen parsed in
        (
          handle_upload sha256 serialize_readings has_router (now (count + 1)) (received m) sn
              at_upload,
          message_loop_step fuel count sn (received m) (record w.conn { incoming = rest }) w read
              ∙ ap (message_loop sha256 serialize_readings has_router now fuel (count + 1) sn) (
                  handle_message_upload (count + 1) sn (received m) at_upload
                    (ap (λ (x : Msg). x.type) made)),
          healthy,
          left,
        )

    loop_at :
        (a b c d : ℕ) (sn : Bytes) (w : World)
        → a ≡ b
        → c ≡ d
        → message_loop sha256 serialize_readings has_router now a c sn w
          ≡ message_loop sha256 serialize_readings has_router now b d sn w
    loop_at a b c d sn w e f = rw (e, f) refl

    -- Uploads that a gateway built one after another and whose frames the server reads in this order
    -- are all in the store behind the turns that read them, each once and in order, under the serial
    -- number of the gateway, and what follows the frames is left to read. The payloads are of less than
    -- 65536 bytes with fields that fit their types, no key of them is in the cache when it arrives, and
    -- the store refuses nothing.
    pub message_loop_delivers :
        (us : List Sent) (fuel count : ℕ) (sn : Bytes) (rest : Bytes) (w : World)
        → All IsSent us
        → Unseen sn w.dedup us
        → IsHealthy w
        → w.conn.incoming ≡ frames us ++ rest
        → (out : World) × (message_loop sha256 serialize_readings has_router now
              (length us + fuel)
              count
              sn
              w
            ≡ message_loop sha256 serialize_readings has_router now fuel (count + length us) sn out)
          × (out.saved ≡ w.saved ++ rows_sent sn us)
          × (out.conn.incoming ≡ rest)
    message_loop_delivers [] fuel count sn rest w sent unseen h arrives = (
      w,
      loop_at (0 + fuel) fuel count (count + 0) sn w (omega arith) (omega arith),
      sym (append-nil w.saved),
      arrives,
    )
    message_loop_delivers (u ∷ us) fuel count sn rest w (s, sent) (new, unseen) h arrives =
        let (out, turned, healthy, left) =
          upload_turn (length us + fuel) count sn u (frames us ++ rest) w s h new
            (arrives ∙ append_assoc (Frame.encode u.1).0 (frames us) rest) in
        let cached = ap (λ (x : Stored). x.1) left in
        let (last, looped, saved, remains) =
          message_loop_delivers us fuel (count + 1) sn rest out sent
            (subst (λ (d : DedupCache). Unseen sn d us) (sym cached) unseen) healthy
            (ap (λ (x : Stored). x.2) left) in
        (
          last,
          loop_at (length (u ∷ us) + fuel) (suc (length us + fuel)) count count sn w (omega arith)
                refl
              ∙ turned
              ∙ looped
              ∙ loop_at fuel fuel (count + 1 + length us) (count + length (u ∷ us)) sn last refl
                  (omega arith),
          saved
              ∙ ap (λ (rs : List (Bytes × List Reading)). rs ++ rows_sent sn us)
                  (ap (λ (x : Stored). x.0) left)
              ∙ append_assoc w.saved (saved_rows [] sn u.0.readings) (rows_sent sn us),
          remains,
        )
