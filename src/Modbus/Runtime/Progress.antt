-- ===== src/Modbus/Runtime/Progress.antt =====
-- internal/client/modbus_runtime.go: commands in the channel are answered, and a clean poll brings a
-- device back.
use lepg.Base.{
  ℕ, zero, suc, ◌<◌, ◌≤◌, ◌≡◌, ◌≢◌, Bytes, Bool, true, false, List, [], ◌∷◌, ◌++◌, All, length,
  drop, Option, none, some, Bool-cases, inl, inr, lt→ltb, arith, refl, ap, sym, ◌∙◌, append_assoc,
  append-nil, map, All-drop, length-drop,
}
use lepg.Float.{Float}
use lepg.Model.Value.{Texts}
use lepg.Config.Point.{ModbusPointConfig, is_read_only}
use lepg.Config.Device.{DeviceConfig, hash}
use lepg.Modbus.Point.{Parsed, panicked, no_value, parsed, parse_point_value}
use lepg.Modbus.Write.{Request, WriteError, Planned, no_request, request, plan_write, find_point}
use lepg.Modbus.Runtime.{
  online, WriteCmd, Runtime, queue_size, is_online, ReadAnswer, Polled, is_polled, after_parse,
  after_read, poll_points, end_poll, poll_with, poll_once, write, send, send_planned, execute_found,
  execute_write, reply, serve_queue, serve,
}

-- A read that the device answered.
abbrev pub IsAnswered : ReadAnswer → Type 0
IsAnswered a = (bytes : Bytes) × (a.0 ≡ some bytes)

some-injective : {A : Type 0} (x y : A) → some x ≡ some y → x ≡ y
some-injective x y e = cc

module _ (fl : Float) (t : Texts fl.F) (d : DeviceConfig fl.F) where
  open fl use {F}

  -- The write loop turns so many times.
  abbrev pub serve_times : ℕ → Runtime F → Runtime F
  serve_times zero rt = rt
  serve_times (suc n) rt = serve_times n (serve fl t d rt)

  abbrev pub answered : Runtime F → List (WriteCmd F)
  answered rt = map (λ r. r.0) rt.replies

  map_last :
      (replies : List (WriteCmd F × Option WriteError)) (cmd : WriteCmd F) (e : Option WriteError)
      → map (λ r. r.0) (replies ++ (cmd, e) ∷ []) ≡ map (λ r. r.0) replies ++ cmd ∷ []
  map_last [] cmd e = refl
  map_last (r ∷ replies) cmd e = ap (◌∷◌ r.0) (map_last replies cmd e)

  reply_answers :
      (cmd : WriteCmd F) (out : Runtime F × Option WriteError)
      → ((reply fl t d cmd out).queue ≡ out.0.queue)
        × (answered (reply fl t d cmd out) ≡ answered out.0 ++ cmd ∷ [])
  reply_answers cmd (rt, none) = (refl, map_last rt.replies cmd none)
  reply_answers cmd (rt, some e) = (refl, map_last rt.replies cmd (some e))

  send_keeps :
      (r : Request) (answers : List Bool) (rt : Runtime F)
      → let out = (send fl t d r answers rt).0 in
        (out.queue ≡ rt.queue) × (out.replies ≡ rt.replies)
  send_keeps r [] rt = (refl, refl)
  send_keeps r (true ∷ answers) rt = (refl, refl)
  send_keeps r (false ∷ answers) rt = (refl, refl)

  send_planned_keeps :
      (planned : Planned) (rt : Runtime F)
      → let out = (send_planned fl t d planned rt).0 in
        (out.queue ≡ rt.queue) × (out.replies ≡ rt.replies)
  send_planned_keeps (no_request e) rt = (refl, refl)
  send_planned_keeps (request r) rt = send_keeps r rt.answers rt

  execute_found_keeps :
      (value : F) (found : Option (ModbusPointConfig F)) (rt : Runtime F)
      → let out = (execute_found fl t d value found rt).0 in
        (out.queue ≡ rt.queue) × (out.replies ≡ rt.replies)
  execute_found_keeps value none rt = (refl, refl)
  execute_found_keeps value (some p) rt = send_planned_keeps (plan_write fl p value) rt

  serve_queue_answers :
      (cmd : WriteCmd F) (queue : List (WriteCmd F)) (rt : Runtime F)
      → ((serve_queue fl t d (cmd ∷ queue) rt).queue ≡ queue)
        × (answered (serve_queue fl t d (cmd ∷ queue) rt) ≡ answered rt ++ cmd ∷ [])
  unfolding execute_write
  serve_queue_answers cmd queue rt =
      let before : Runtime F = record rt { queue = queue } in
      let found : Option (ModbusPointConfig F) = find_point fl cmd.point_name d.points in
      let (same_queue, same_replies) = execute_found_keeps cmd.value found before in
      let (left, done) = reply_answers cmd (execute_found fl t d cmd.value found before) in
      (left ∙ same_queue, done ∙ ap (λ rs. map (λ r. r.0) rs ++ cmd ∷ []) same_replies)

  serve_all :
      (queue : List (WriteCmd F)) (rt : Runtime F)
      → rt.queue ≡ queue
      → let out = serve_times (length queue) rt in
        (out.queue ≡ []) × (answered out ≡ answered rt ++ queue)
  unfolding serve
  serve_all [] rt e = (e, sym (append-nil (answered rt)))
  serve_all (cmd ∷ queue) rt e =
      let after : Runtime F = serve_queue fl t d rt.queue rt in
      let served : after ≡ serve_queue fl t d (cmd ∷ queue) rt =
        ap (λ (q : List (WriteCmd F)). serve_queue fl t d q rt) e in
      let (left, done) = serve_queue_answers cmd queue rt in
      let (empty, all) = serve_all queue after (ap (λ (r : Runtime F). r.queue) served ∙ left) in
      let first : answered after ≡ answered rt ++ cmd ∷ [] = ap answered served ∙ done in
      (
        empty,
        all
            ∙ ap (λ (cs : List (WriteCmd F)). cs ++ queue) first
            ∙ append_assoc (answered rt) (cmd ∷ []) queue,
      )

  -- As many turns of the write loop as there are commands in the channel leave it empty and answer each
  -- command once, in the order of the channel, with success or an error, whatever the device answers.
  pub serve_times_answers :
      (rt : Runtime F)
      → let out = serve_times (length rt.queue) rt in
        (out.queue ≡ []) × (answered out ≡ answered rt ++ rt.queue)
  serve_times_answers rt = serve_all rt.queue rt refl

  -- What a poll with enough answers, all of them bytes, finds out.
  after_read_clean :
      (h : Bytes) (p : ModbusPointConfig F) (answers : List ReadAnswer) (more : Polled)
      → All IsAnswered answers
      → 1 ≤ length answers
      → more.had_error ≡ false
      → (after_read fl t d h p answers more).had_error ≡ false
  after_read_clean h p [] more good enough e = absurd (omega arith)
  after_read_clean h p ((none, now) ∷ answers) more good enough e = cc (good.0.1)
  after_read_clean h p ((some results, now) ∷ answers) more good enough e =
      parsed_clean (parse_point_value fl p results) now
    where
      parsed_clean :
          (r : Parsed F) (now : ℕ) → (after_parse fl t d h p r now more).had_error ≡ false
      parsed_clean panicked now = refl
      parsed_clean no_value now = e
      parsed_clean (parsed v) now = e

  poll_points_clean :
      (h : Bytes) (points : List (ModbusPointConfig F)) (answers : List ReadAnswer)
      → All IsAnswered answers
      → length points ≤ length answers
      → (poll_points fl t d h points answers).had_error ≡ false
  unfolding poll_points
  poll_points_clean h [] answers good enough = refl
  poll_points_clean h (p ∷ points) answers good enough = elim (Bool-cases (is_polled fl t d p)) [
    | inl read ↦ rw read (
        after_read_clean h p answers _ good (omega arith) (
          poll_points_clean h points (drop 1 answers) (All-drop IsAnswered 1 answers good)
            (omega (arith, length-drop 1 answers))))
    | inr skipped ↦ rw skipped (poll_points_clean h points answers good (omega arith))
  ]

  end_poll_clean :
      (r : Polled) (rt out : Runtime F)
      → r.had_error ≡ false
      → end_poll fl t d r rt ≡ some out
      → (out.state ≡ online) × (out.queue ≡ rt.queue)
  end_poll_clean r rt out clean e = elim (Bool-cases r.crashed) [
    | inl crash ↦ cc (rw crash at e)
    | inr fine ↦ let same = some-injective _ out (rw (fine, clean) at e) in rw (← same) (refl, refl)
  ]

  poll_with_clean :
      (h : Option Bytes) (answers : List ReadAnswer) (rt out : Runtime F)
      → h ≢ none
      → All IsAnswered answers
      → length d.points ≤ length answers
      → poll_with fl t d h answers rt ≡ some out
      → (out.state ≡ online) × (out.queue ≡ rt.queue)
  poll_with_clean none answers rt out known good enough e = absurd (known refl)
  poll_with_clean (some h) answers rt out known good enough e =
      end_poll_clean (poll_points fl t d h d.points answers) rt out
        (poll_points_clean h d.points answers good enough) e

  pub write_accepts :
      (cmd : WriteCmd F) (p : ModbusPointConfig F) (rt : Runtime F)
      → rt.state ≡ online
      → find_point fl cmd.point_name d.points ≡ some p
      → is_read_only p.access ≡ false
      → length rt.queue < queue_size
      → write fl t d cmd rt ≡ (record rt { queue = rt.queue ++ cmd ∷ [] }, none)
  unfolding write
  write_accepts cmd p rt on found open_point room =
      let on : is_online rt.state ≡ true = rw on refl in
      rw (on, found) (rw open_point (rw (lt→ltb (length rt.queue) queue_size room) refl))

  -- Whatever state a device is in, if its hash can be formed, a poll in which it answers every read, and
  -- which does not panic, brings it online: where the channel has room, `Write` then takes a command for
  -- each point of the device that is not read-only.
  pub poll_once-write :
      (answers : List ReadAnswer) (rt out : Runtime F) (cmd : WriteCmd F) (p : ModbusPointConfig F)
      → hash t d ≢ none
      → All IsAnswered answers
      → length d.points ≤ length answers
      → poll_once fl t d answers rt ≡ some out
      → find_point fl cmd.point_name d.points ≡ some p
      → is_read_only p.access ≡ false
      → length rt.queue < queue_size
      → (out.state ≡ online)
        × (write fl t d cmd out ≡ (record out { queue = rt.queue ++ cmd ∷ [] }, none))
  unfolding poll_once
  poll_once-write answers rt out cmd p known good enough e found open_point room =
      let (on, same) = poll_with_clean (hash t d) answers rt out known good enough e in
      (
        on,
        write_accepts cmd p out on found open_point (omega (arith, ap length same)) ∙ rw same refl,
      )
