-- ===== src/Client/Session/Laws.antt =====
-- What a session comes to, and which of its cases ended it.
use lepg.Base.{ℕ, ◌<◌, ◌≤◌, ◌≡◌, Bool, true, false, List, ◌∷◌, ◌++◌, All, Option, none, some}
use lepg.Errors.{Result, ok, err}
use lepg.MsgType
use lepg.Msg.{Msg}
use lepg.Conn.{silent}
use lepg.Client.Upload.{Uploader}
use lepg.Client.Handshake.{Link}
use lepg.Client.Dial.{Dialed, connection}
use lepg.Client.Session.{
  Case, ctx_done, conn_dead, notified, heartbeat_due, upload_due, Session, blocked, ran, Ended,
  finished, failed, connection_lost, upload_failed, too_many_timeouts, connect_failed,
  handshake_failed, Progress, running, ended, max_consecutive_all_timeout, connected, notify_failed,
  heartbeat_failed,
}

-- The cases behind which the loop may go on.
abbrev pub goes_on : Case → Bool
goes_on ctx_done = false
goes_on conn_dead = false
goes_on _ = true

-- The case that a session ends with so.
abbrev pub ends_with : Case → Ended → Bool
ends_with ctx_done finished = true
ends_with conn_dead (failed connection_lost) = true
ends_with (notified p) (failed (notify_failed e)) = true
ends_with (heartbeat_due acked) (failed (heartbeat_failed e)) = true
ends_with (upload_due true) (failed (upload_failed e)) = true
ends_with (upload_due true) (failed too_many_timeouts) = true
ends_with _ _ = false

-- Too many uploads in a row whose acknowledgement did not come, where that is the error.
abbrev pub IsCounted : Ended → Uploader → Type 0
IsCounted (failed too_many_timeouts) u = max_consecutive_all_timeout ≤ u.consecutive_all_timeout
IsCounted _ u = Unit {0}

abbrev pub IsFew : Uploader → Type 0
IsFew u = u.consecutive_all_timeout < max_consecutive_all_timeout

-- The loop goes on behind cases that let it, or the first case that does not has ended it.
abbrev pub IsRun : List (ℕ × Case) → Progress → Type 0
IsRun cases (running u) = All (λ c. goes_on c.1 ≡ true) cases × IsFew u
IsRun cases (ended x u) =
    (before : List (ℕ × Case)) × (now : ℕ) × (e : Case) × (after : List (ℕ × Case)) × (cases
      ≡ before ++ (now, e) ∷ after)
    × All (λ c. goes_on c.1 ≡ true) before
    × (ends_with e x ≡ true)
    × IsCounted x u

-- What one round comes to.
abbrev IsRound : Case → Progress → Type 0
IsRound e (running u) = (goes_on e ≡ true) × IsFew u
IsRound e (ended x u) = (ends_with e x ≡ true) × IsCounted x u

-- What a session comes to, by the dial and by what the handshake came to.
abbrev pub IsSession :
    Dialed
    → Link
    → Option (Result (Unit {0}) × Link)
    → List (ℕ × Case)
    → Uploader
    → Session
    → Type 0
IsSession connection l none cases u out = (out ≡ blocked) × (l.conn.ending ≡ silent)
IsSession connection l (some (err e, l')) cases u out =
    out ≡ ran (ended (failed handshake_failed) (connected u l'))
IsSession connection l (some (ok _, l')) cases u out =
    (p : Progress) × (out ≡ ran p) × IsRun cases p
IsSession _ l h cases u out = out ≡ ran (ended (failed connect_failed) u)
