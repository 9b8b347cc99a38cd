-- ===== src/Modbus/Runtime/Stop.antt =====
-- internal/client/modbus_runtime.go: calls of `Write` after `Stop`.
use lepg.Base.{
  ◌<◌, ◌≡◌, false, List, [], ◌∷◌, ◌++◌, length, Option, none, some, Bool-cases, inl, inr, ltb, refl,
  ap, sym, ◌∙◌, append_assoc, append-nil,
}
use lepg.Float.{Float}
use lepg.Model.Value.{Texts}
use lepg.Config.Point.{ModbusPointConfig, is_read_only}
use lepg.Config.Device.{DeviceConfig}
use lepg.Modbus.Write.{WriteError, find_point}
use lepg.Modbus.Runtime.{
  online, WriteCmd, Runtime, queue_size, is_online, stop, enqueue, write_found, write,
}
use lepg.Modbus.Runtime.Steps.{Step, Reach, here, next, polls, writes, serves, stops}
use lepg.Modbus.Runtime.Progress.{write_accepts}

module _ (fl : Float) (t : Texts fl.F) (d : DeviceConfig fl.F) where
  open fl use {F}

  -- Nothing of a runtime that was stopped changes, but that the channel gets more commands.
  pub record IsStoppedAt (rt out : Runtime F) : Type 0 where
    pub stopped : out.running ≡ false
    pub same_state : out.state ≡ rt.state
    pub same_replies : out.replies ≡ rt.replies
    pub same_requests : out.sent ≡ rt.sent
    pub more : List (WriteCmd F)
    pub waiting : out.queue ≡ rt.queue ++ more

  enqueue_keeps :
      (cmd : WriteCmd F) (rt out : Runtime F)
      → IsStoppedAt rt out
      → IsStoppedAt rt (enqueue fl t d cmd out).0
  enqueue_keeps cmd rt out s = elim (Bool-cases (ltb (length out.queue) queue_size)) [
    | inl room ↦ rw room (record {
      stopped = s.stopped;
      same_state = s.same_state;
      same_replies = s.same_replies;
      same_requests = s.same_requests;
      more = s.more ++ cmd ∷ [];
      waiting =
          ap (λ (cs : List (WriteCmd F)). cs ++ cmd ∷ []) s.waiting
          ∙ append_assoc rt.queue s.more (cmd ∷ []);
    })
    | inr full ↦ rw full s
  ]

  write_found_keeps :
      (cmd : WriteCmd F) (found : Option (ModbusPointConfig F)) (rt out : Runtime F)
      → IsStoppedAt rt out
      → IsStoppedAt rt (write_found fl t d cmd found out).0
  write_found_keeps cmd none rt out s = s
  write_found_keeps cmd (some p) rt out s = elim (Bool-cases (is_read_only p.access)) [
    | inl ro ↦ rw ro s
    | inr open_point ↦ rw open_point (enqueue_keeps cmd rt out s)
  ]

  write_keeps :
      (cmd : WriteCmd F) (rt out : Runtime F)
      → IsStoppedAt rt out
      → IsStoppedAt rt (write fl t d cmd out).0
  unfolding write
  write_keeps cmd rt out s = elim (Bool-cases (is_online out.state)) [
    | inl on ↦ rw on (write_found_keeps cmd (find_point fl cmd.point_name d.points) rt out s)
    | inr off ↦ rw off s
  ]

  stopped_step :
      {a b : Runtime F} (rt : Runtime F) → Step fl t d a b → IsStoppedAt rt a → IsStoppedAt rt b
  unfolding stop
  stopped_step {a} rt (polls answers runs e) s = absurd (cc (runs, s.stopped))
  stopped_step {a} rt (writes cmd) s = write_keeps cmd rt a s
  stopped_step {a} rt (serves runs) s = absurd (cc (runs, s.stopped))
  stopped_step rt stops s = record {
    stopped = refl;
    same_state = s.same_state;
    same_replies = s.same_replies;
    same_requests = s.same_requests;
    more = s.more;
    waiting = s.waiting;
  }

  stopped_reach :
      {a b : Runtime F} (rt : Runtime F) → IsStoppedAt rt a → Reach fl t d a b → IsStoppedAt rt b
  stopped_reach rt s here = s
  stopped_reach rt s (next r step) = stopped_step rt step (stopped_reach rt s r)

  -- `Stop` leaves an online device online: after it returned, `Write` still takes a command for a point
  -- that is not read-only, where the channel has room, and reports no error. Whatever is called then,
  -- the command stands in the channel behind those that were in it, none of them is ever answered, and
  -- the device still looks online to the next `Write`.
  pub write-stop :
      (rt : Runtime F) (cmd : WriteCmd F) (p : ModbusPointConfig F)
      → rt.state ≡ online
      → find_point fl cmd.point_name d.points ≡ some p
      → is_read_only p.access ≡ false
      → length rt.queue < queue_size
      → let written = write fl t d cmd (stop fl t d rt) in
        (written.1 ≡ none)
        × ((out : Runtime F)
            → Reach fl t d written.0 out
            → ((more : List (WriteCmd F)) × (out.queue ≡ rt.queue ++ cmd ∷ more))
              × (out.replies ≡ rt.replies)
              × (out.sent ≡ rt.sent)
              × (out.state ≡ online))
  write-stop rt cmd p on found open_point room =
      let halted : Runtime F = record rt { running = false } in
      let taken : write fl t d cmd (stop fl t d rt)
          ≡ (record halted { queue = rt.queue ++ cmd ∷ [] }, none) =
        unfold stop in write_accepts fl t d cmd p halted on found open_point room in
      let start : IsStoppedAt (record halted { queue = rt.queue ++ cmd ∷ [] })
          (write fl t d cmd (stop fl t d rt)).0 =
        rw taken (record {
          stopped = refl;
          same_state = refl;
          same_replies = refl;
          same_requests = refl;
          more = [];
          waiting = sym (append-nil (rt.queue ++ cmd ∷ []));
        }) in
      (
        ap (λ (r : Runtime F × Option WriteError). r.1) taken,
        λ out r.
            let s = stopped_reach (record halted { queue = rt.queue ++ cmd ∷ [] }) start r in
            (
              (s.more, s.waiting ∙ append_assoc rt.queue (cmd ∷ []) s.more),
              s.same_replies,
              s.same_requests,
              s.same_state ∙ on,
            ),
      )
