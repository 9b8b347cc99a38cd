-- ===== src/Client/Session.antt =====
-- internal/client/client.go: `runSession`, one connection from the dial to its end, with
-- `sendHeartbeat` and `sendNotify`. What the `select` of the loop gets is a list of events; the reader
-- and the ticker run beside it. The acknowledgements of a batch are events of the upload.
pub mod Laws
use lepg.Base.{
  ℕ, zero, suc, ◌+◌, Bytes, Bool, true, false, List, [], ◌∷◌, length, Option, none, some, leb,
  if◌then◌else◌,
}
use lepg.Errors.{Error, Result, ok, err, timeout, eof, store_failed, canceled}
use lepg.MsgType
use lepg.Conn.{Conn, write}
use lepg.Msg as Frame
use lepg.Msg.{Msg}
use lepg.Payload.Notify.{NotifyPayload}
use lepg.Packet.{Packable, heartbeat, notify, MsgFactory, new_msg}
use lepg.Client.Store.{CachedReading, load_pending_readings}
use lepg.Client.Upload.{Uploader, Outcome, upload_readings}
use lepg.Client.Handshake.{Link, perform_handshake}
use lepg.Client.Dial.{Dialed, connection, dial_canceled, gave_up}

-- A case of the `select`: for a heartbeat, whether its acknowledgement comes in time; for an upload,
-- whether the rows are loaded.
pub data Case : Type 0 where
  ctx_done conn_dead : Case
  notified : NotifyPayload → Case
  heartbeat_due upload_due : Bool → Case

-- Why a session ended: an error, or `nil`.
pub data SessionError : Type 0 where
  connect_failed handshake_failed connection_lost : SessionError
  notify_failed heartbeat_failed upload_failed : Error → SessionError
  too_many_timeouts : SessionError

pub data Ended : Type 0 where
  finished : Ended
  failed : SessionError → Ended

-- After one case the loop goes on, or the session has ended.
pub data Progress : Type 0 where
  running : Uploader → Progress
  ended : Ended → Uploader → Progress

-- A session that has come to its loop or failed before it, or one that never returns because the server
-- stays silent in the handshake, which has no read deadline.
pub data Session : Type 0 where
  blocked : Session
  ran : Progress → Session

-- `maxConsecutiveAllTimeout`
abbrev pub max_consecutive_all_timeout : ℕ
max_consecutive_all_timeout = 3

abbrev pub max_payload_size : ℕ
max_payload_size = 65535

-- Build, encode (which does not fail) and write.
abbrev written : MsgFactory → Uploader → Result (Unit {0}) × Conn → Result (Unit {0}) × Uploader
written f u (result, c) = (result, record u { conn = c; factory = f })

abbrev send_built : Uploader → Result Msg × MsgFactory → Result (Unit {0}) × Uploader
send_built u (err e, f) = (err e, record u { factory = f })
send_built u (ok m, f) = written f u (write (Frame.encode m).0 u.conn)

-- `sendNotify` at the time `now`
unfoldable pub send_notify : ℕ → NotifyPayload → Uploader → Result (Unit {0}) × Uploader
send_notify now p u = send_built u (new_msg u.factory now MsgType.notify (notify p))

abbrev await_ack : Bool → Result (Unit {0}) × Uploader → Result (Unit {0}) × Uploader
await_ack acked (err e, u) = (err e, u)
await_ack true (ok _, u) = (ok tt, u)
await_ack false (ok _, u) = (err timeout, u)

-- `sendHeartbeat`
unfoldable pub send_heartbeat : ℕ → Bool → Uploader → Result (Unit {0}) × Uploader
send_heartbeat now acked u =
    await_ack acked (send_built u (new_msg u.factory now MsgType.heartbeat heartbeat))

abbrev sent_or : (Error → SessionError) → Result (Unit {0}) × Uploader → Progress
sent_or wrap (err e, u) = ended (failed (wrap e)) u
sent_or wrap (ok _, u) = running u

abbrev check_timeouts : Uploader → Progress
check_timeouts u =
    if leb max_consecutive_all_timeout u.consecutive_all_timeout
    then ended (failed too_many_timeouts) u
    else running u

abbrev after_upload : Option Outcome → Option Progress
after_upload none = none
after_upload (some (err e, u)) = some (ended (failed (upload_failed e)) u)
after_upload (some (ok _, u)) = some (check_timeouts u)

abbrev upload_loaded : ℕ → List CachedReading → Uploader → Option Progress
upload_loaded now [] u = some (running u)
upload_loaded now (r ∷ rs) u =
    after_upload (upload_readings (suc (length rs)) max_payload_size now (r ∷ rs) u)

-- One round of the loop; `none` is the end of the fuel of the upload.
unfoldable pub session_step : ℕ → ℕ → Case → Uploader → Option Progress
unfolding send_notify send_heartbeat
session_step batch_size now ctx_done u = some (ended finished u)
session_step batch_size now conn_dead u = some (ended (failed connection_lost) u)
session_step batch_size now (notified p) u = some (sent_or notify_failed (send_notify now p u))
session_step batch_size now (heartbeat_due acked) u =
    some (sent_or heartbeat_failed (send_heartbeat now acked u))
session_step batch_size now (upload_due false) u = some (running u)
session_step batch_size now (upload_due true) u =
    upload_loaded now (load_pending_readings batch_size u.rows) u

-- The loop on the cases to come, each at its time.
abbrev continue : (Uploader → Option Progress) → Option Progress → Option Progress
continue again none = none
continue again (some (ended e u)) = some (ended e u)
continue again (some (running u)) = again u

unfoldable pub session_loop : ℕ → List (ℕ × Case) → Uploader → Option Progress
session_loop batch_size [] u = some (running u)
session_loop batch_size ((now, e) ∷ cases) u =
    continue (session_loop batch_size cases) (session_step batch_size now e u)

-- The new connection and its factory; the counter of time-outs starts again.
abbrev connected : Uploader → Link → Uploader
connected u l = record u { conn = l.conn; factory = l.factory; consecutive_all_timeout = 0 }

abbrev came_to : Option Progress → Option Session
came_to none = none
came_to (some p) = some (ran p)

abbrev after_handshake :
    ℕ → List (ℕ × Case) → Uploader → Option (Result (Unit {0}) × Link) → Option Session
after_handshake batch_size cases u none = some blocked
after_handshake batch_size cases u (some (err e, l)) =
    some (ran (ended (failed handshake_failed) (connected u l)))
after_handshake batch_size cases u (some (ok _, l)) =
    came_to (session_loop batch_size cases (connected u l))

-- `runSession`, with the connection that the dial gives and a new factory, at the time `now`
unfoldable pub run_session :
    Dialed → Link → ℕ → Bytes → Bytes → ℕ → List (ℕ × Case) → Uploader → Option Session
run_session dial_canceled l now sn token batch_size cases u =
    some (ran (ended (failed connect_failed) u))
run_session gave_up l now sn token batch_size cases u = some (ran (ended (failed connect_failed) u))
run_session connection l now sn token batch_size cases u =
    after_handshake batch_size cases u (perform_handshake now sn token l)
