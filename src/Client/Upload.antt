-- ===== src/Client/Upload.antt =====
-- internal/client/client.go: `uploadReadings`, one batch from the store to the server and back.
pub mod Laws
pub mod Canceled
use lepg.Base.{
  ℕ, zero, suc, ◌+◌, ◌/◌, Bool, true, false, List, [], ◌∷◌, map, take, drop, length, Option, none,
  some, ltb, ◌==◌, if◌then◌else◌,
}
use lepg.Errors.{Error, Result, ok, err, store_failed, canceled}
use lepg.MsgType
use lepg.Code
use lepg.Conn.{Conn, write}
use lepg.Msg as Frame
use lepg.Msg.{Msg}
use lepg.Payload.Ack.{AckPayload}
use lepg.Payload.Upload.{UploadPayload}
use lepg.Packet.{MsgFactory, upload, new_msg}
use lepg.Client.Store.{
  UploadStatus, not_sent, sending, sent, failed, CachedReading, update_readings_status,
}

-- What the `select` behind a write gets: an acknowledgement that the reader put into the channel,
-- the end of the waiting time, or the end of the program.
pub data Event : Type 0 where
  acked : AckPayload → Event
  ack_timeout ctx_done : Event

-- The connection, its factory, the table, and the results of the status updates to come (an update
-- that the list does not name succeeds); the events to come (where the list ends the time runs out);
-- `consecutiveAllTimeout`.
pub record Uploader : Type 0 where
  pub conn : Conn
  pub factory : MsgFactory
  pub rows : List CachedReading
  pub update_results : List Bool
  pub events : List Event
  pub consecutive_all_timeout : ℕ

-- What the function returns: an error, or `nil`.
abbrev pub Outcome : Type 0
Outcome = Result (Unit {0}) × Uploader

abbrev pub ids_of : List CachedReading → List ℕ
ids_of readings = map (λ r. r.reading.id) readings

-- `store.UpdateReadingsStatus(ctx, batchIDs, status)`
abbrev pub update_with : List Bool → List ℕ → UploadStatus → Uploader → Bool × Uploader
update_with [] ids status u = (true, record u { rows = update_readings_status ids status u.rows })
update_with (true ∷ more) ids status u =
    (true, record u { rows = update_readings_status ids status u.rows; update_results = more })
update_with (false ∷ more) ids status u = (false, record u { update_results = more })

abbrev pub update_status : List ℕ → UploadStatus → Uploader → Bool × Uploader
update_status ids status u = update_with u.update_results ids status u

abbrev pub take_event : List Event → Uploader → Event × Uploader
take_event [] u = (ack_timeout, u)
take_event (e ∷ events) u = (e, record u { events = events })

-- The cases of the `select`.
abbrev pub after_event : List ℕ → Event × Uploader → Outcome
after_event ids (acked ack_payload, u) =
    if ack_payload.code == Code.success
    then (ok tt, record (update_status ids sent u).1 { consecutive_all_timeout = 0 })
    else (ok tt, (update_status ids not_sent u).1)
after_event ids (ack_timeout, u) =
    let u' : Uploader = (update_status ids not_sent u).1 in
    (ok tt, record u' { consecutive_all_timeout = u'.consecutive_all_timeout + 1 })
after_event ids (ctx_done, u) = (err canceled, u)

abbrev pub after_write : List ℕ → Uploader → Result (Unit {0}) × Conn → Outcome
after_write ids u (err e, c) = (err e, (update_status ids failed (record u { conn = c })).1)
after_write ids u (ok _, c) =
    let u' : Uploader = record u { conn = c } in after_event ids (take_event u'.events u')

abbrev pub after_mark : List ℕ → Msg → Bool × Uploader → Outcome
after_mark ids m (false, u) = (err store_failed, u)
after_mark ids m (true, u) = after_write ids u (write (Frame.encode m).0 u.conn)

-- From the mark `UploadSending` on; `Encode` does not fail.
unfoldable pub send_upload : List ℕ → Msg → Uploader → Outcome
send_upload ids m u = after_mark ids m (update_status ids sending u)

-- A batch that is too large: a single reading is given up, a longer batch is sent in two halves.
abbrev pub then_second : (Uploader → Option Outcome) → Option Outcome → Option Outcome
then_second second none = none
then_second second (some (err e, u)) = some (err e, u)
then_second second (some (ok _, u)) = second u

abbrev pub split :
    (List CachedReading → Uploader → Option Outcome)
    → List CachedReading
    → Uploader
    → Option Outcome
split again readings u =
    if length readings == 1
    then some (ok tt, (update_status (ids_of readings) failed u).1)
    else let mid = length readings / 2 in
      then_second (again (drop mid readings)) (again (take mid readings) u)

abbrev pub after_build :
    (List CachedReading → Uploader → Option Outcome)
    → ℕ
    → List CachedReading
    → Uploader
    → Result Msg × MsgFactory
    → Option Outcome
after_build again max_payload_size readings u (err e, f) =
    some (err e, (update_status (ids_of readings) failed (record u { factory = f })).1)
after_build again max_payload_size readings u (ok m, f) =
    let u' : Uploader = record u { factory = f } in
    if ltb max_payload_size m.payload_len
    then split again readings u'
    else some (send_upload (ids_of readings) m u')

-- `uploadReadings` at the time `now`, on fuel for the halving
unfoldable pub upload_readings : ℕ → ℕ → ℕ → List CachedReading → Uploader → Option Outcome
upload_readings zero max_payload_size now readings u = none
upload_readings (suc fuel) max_payload_size now [] u = some (ok tt, u)
upload_readings (suc fuel) max_payload_size now (r ∷ rs) u =
    after_build (upload_readings fuel max_payload_size now) max_payload_size (r ∷ rs) u (
      new_msg u.factory now MsgType.upload
        (upload (record { readings = map (λ x. x.reading) (r ∷ rs) })))
