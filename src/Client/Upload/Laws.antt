-- ===== src/Client/Upload/Laws.antt =====
-- What `uploadReadings` leaves in the table, and that it never halves a batch.
use lepg.Base.{
  ℕ, suc, ◌≤◌, ◌≡◌, ◌≢◌, ◌⊎◌, refl, ap, arith, Bool-cases, inl, inr, List, [], ◌∷◌, ◌++◌, map,
  IsBytes, length, some, le→not_ltb, ◌==◌, if◌then◌else◌,
}
use lepg.Errors.{Error, Result, ok, err}
use lepg.MsgType
use lepg.Code
use lepg.Conn.{Conn, write}
use lepg.Msg as Frame
use lepg.Msg.{Msg, decode_frame}
use lepg.Msg.Accepted.{decode_frame-eq-ok}
use lepg.Packet.{MsgFactory, Packable, upload, new_msg}
use lepg.Packet.Transport.{new_msg-eq-ok}
use lepg.Client.Store.{
  UploadStatus, not_sent, sending, sent, failed, CachedReading, update_readings_status,
}
use lepg.Client.Store.Laws.{update_readings_status-twice}
use lepg.Client.Upload.{
  Event, acked, ack_timeout, ctx_done, Uploader, Outcome, ids_of, update_status, take_event,
  after_event, send_upload, upload_readings,
}

-- The message that `NewMsg` makes of a batch.
abbrev pub batch : List CachedReading → Packable
batch readings = upload (record { readings = map (λ x. x.reading) readings })

-- The length that a message names fits 16 bits.
pub payload_len-le :
    (f f' : MsgFactory) (now t : ℕ) (p : Packable) (m : Msg)
    → new_msg f now t p ≡ (ok m, f')
    → m.payload_len ≤ 65535
payload_len-le f f' now t p m e =
    let (_, built, _) = new_msg-eq-ok f f' now t p m e in
    omega (arith, ap (λ (x : Msg). x.payload_len) built)

-- A batch that `NewMsg` accepts is sent in one message whatever its size is: the test on the
-- length that is meant to halve it reads a number that has 16 bits. If the encoded readings are
-- 65536 bytes or more, no frame that the server accepts from any stream of bytes carries them.
pub upload_readings_never_split :
    (fuel now : ℕ) (r : CachedReading) (rs : List CachedReading) (u : Uploader) (m m' : Msg)
    (f : MsgFactory) (c d : Conn)
    → new_msg u.factory now MsgType.upload (batch (r ∷ rs)) ≡ (ok m, f)
    → 65536 ≤ length m.payload
    → IsBytes c.incoming
    → decode_frame c ≡ (ok m', d)
    → (upload_readings (suc fuel) 65535 now (r ∷ rs) u
        ≡ some (send_upload (ids_of (r ∷ rs)) m (record u { factory = f })))
      × (m'.payload ≢ m.payload)
unfolding upload_readings
upload_readings_never_split fuel now r rs u m m' f c d e big bytes accepted =
    let (_, _, _, _, small) = decode_frame-eq-ok c d m' bytes accepted in
    let whole =
      le→not_ltb 65535 m.payload_len
        (payload_len-le u.factory f now MsgType.upload (batch (r ∷ rs)) m e) in
    (rw (e, whole), λ q. absurd (omega (arith, ap length q)))

pub build-cases :
    (r : Result Msg × MsgFactory)
    → ((x : Error) × (f : MsgFactory) × (r ≡ (err x, f)))
      ⊎ ((m : Msg) × (f : MsgFactory) × (r ≡ (ok m, f)))
build-cases (err x, f) = inl (x, f, refl)
build-cases (ok m, f) = inr (m, f, refl)

-- `uploadReadings` with the limit of the session loop comes to its end without halving: one step of
-- fuel is enough for any batch.
pub upload_readings-total :
    (fuel now : ℕ) (readings : List CachedReading) (u : Uploader)
    → (out : Outcome) × (upload_readings (suc fuel) 65535 now readings u ≡ some out)
      × (upload_readings 1 65535 now readings u ≡ some out)
unfolding upload_readings
upload_readings-total fuel now [] u = ((ok tt, u), refl, refl)
upload_readings-total fuel now (r ∷ rs) u =
    elim (build-cases (new_msg u.factory now MsgType.upload (batch (r ∷ rs)))) [
      | inl (x, f, e) ↦ (
        (err x, (update_status (ids_of (r ∷ rs)) failed (record u { factory = f })).1),
        rw e,
        rw e,
      )
      | inr (m, f, e) ↦
          let whole =
            le→not_ltb 65535 m.payload_len
              (payload_len-le u.factory f now MsgType.upload (batch (r ∷ rs)) m e) in
          (send_upload (ids_of (r ∷ rs)) m (record u { factory = f }), rw (e, whole), rw (e, whole))
    ]

-- The status that the outcome of a batch gives its readings.
abbrev pub settled : Event → UploadStatus
settled (acked p) = if p.code == Code.success then sent else not_sent
settled ack_timeout = not_sent
settled ctx_done = sending

abbrev pub first_event : List Event → Event
first_event [] = ack_timeout
first_event (e ∷ events) = e

event-rows :
    (ids : List ℕ) (rows : List CachedReading) (e : Event) (u : Uploader)
    → u.update_results ≡ []
    → u.rows ≡ update_readings_status ids sending rows
    → (after_event ids (e, u)).1.rows ≡ update_readings_status ids (settled e) rows
event-rows ids rows (acked p) u good marked = elim (Bool-cases (p.code == Code.success)) [
  | inl success ↦ rw (success, good, marked) (update_readings_status-twice ids sent sending rows)
  | inr other ↦ rw (other, good, marked) (update_readings_status-twice ids not_sent sending rows)
]
event-rows ids rows ack_timeout u good marked =
    rw (good, marked) (update_readings_status-twice ids not_sent sending rows)
event-rows ids rows ctx_done u good marked = marked

taken-rows :
    (ids : List ℕ) (rows : List CachedReading) (events : List Event) (u : Uploader)
    → u.update_results ≡ []
    → u.rows ≡ update_readings_status ids sending rows
    → (after_event ids (take_event events u)).1.rows
      ≡ update_readings_status ids (settled (first_event events)) rows
taken-rows ids rows [] u good marked = event-rows ids rows ack_timeout u good marked
taken-rows ids rows (e ∷ events) u good marked =
    event-rows ids rows e (record u { events = events }) good marked

send_upload-rows :
    (ids : List ℕ) (m : Msg) (u : Uploader)
    → u.update_results ≡ []
    → u.conn.write_results ≡ []
    → (send_upload ids m u).1.rows
      ≡ update_readings_status ids (settled (first_event u.events)) u.rows
unfolding send_upload write
send_upload-rows ids m u good writes =
    rw (good, writes)
      (taken-rows ids u.rows u.events
        (record u {
          conn = record u.conn {
            sent = u.conn.sent ++ ((Frame.encode m).0 ∷ []);
            write_results = [];
          };
          rows = update_readings_status ids sending u.rows;
          update_results = [];
        })
        refl refl)

-- The statuses behind an upload, where the database and the connection take what they are given.
-- The readings of the batch, and no others, become Sent if an acknowledgement with the code Ok
-- arrives, whichever message it is for; they become NotSent again if one with another code arrives
-- or none does in time. If the program ends meanwhile they stay Sending.
pub upload_readings-rows :
    (fuel now : ℕ) (r : CachedReading) (rs : List CachedReading) (u : Uploader) (m : Msg)
    (f : MsgFactory)
    → new_msg u.factory now MsgType.upload (batch (r ∷ rs)) ≡ (ok m, f)
    → u.update_results ≡ []
    → u.conn.write_results ≡ []
    → (result : Result (Unit {0})) × (u' : Uploader) × (upload_readings
          (suc fuel)
          65535
          now
          (r ∷ rs)
          u
        ≡ some (result, u'))
      × (u'.rows ≡ update_readings_status (ids_of (r ∷ rs)) (settled (first_event u.events)) u.rows)
unfolding upload_readings
upload_readings-rows fuel now r rs u m f e good writes =
    let whole =
      le→not_ltb 65535 m.payload_len
        (payload_len-le u.factory f now MsgType.upload (batch (r ∷ rs)) m e) in
    let out : Outcome = send_upload (ids_of (r ∷ rs)) m (record u { factory = f }) in
    (
      out.0,
      out.1,
      rw (e, whole),
      send_upload-rows (ids_of (r ∷ rs)) m (record u { factory = f }) good writes,
    )
