-- ===== src/Modbus/Runtime/Steps.antt =====
-- internal/client/modbus_runtime.go: what the goroutines and the callers do to a runtime, as steps in
-- any order, and what holds in every state that they reach.
use lepg.Base.{
  ◌≤◌, ◌≡◌, Bytes, Bool, true, false, List, [], ◌∷◌, All, All-append, length, length-append, Option,
  none, some, Bool-cases, inl, inr, ltb, ltb→lt, arith, refl, ap, subst,
}
use lepg.Float.{Float}
use lepg.Model.Value.{Texts}
use lepg.Config.Point.{ModbusPointConfig, is_read_only}
use lepg.Config.Device.{DeviceConfig, hash}
use lepg.Modbus.Write.{Request, WriteError, Planned, no_request, request, plan_write, find_point}
use lepg.Modbus.Write.Laws.{IsRequestFor, plan_write-IsRequestFor}
use lepg.Modbus.Runtime.{
  WriteCmd, Runtime, queue_size, is_online, ReadAnswer, Polled, has_handler, new_runtime, start,
  stop, poll_points, poll_with, poll_once, enqueue, write_found, write, send, send_planned,
  execute_write, reply, serve_queue, serve,
}

some-injective : {A : Type 0} (x y : A) → some x ≡ some y → x ≡ y
some-injective x y e = cc

module _ (fl : Float) (t : Texts fl.F) (d : DeviceConfig fl.F) where
  open fl use {F}

  -- A poll and a turn of the write loop happen while the goroutines run; `Write` may be called, and
  -- `Stop`, at any time.
  pub data Step (rt : Runtime F) : Runtime F → Type 0 where
    polls :
        {next : Runtime F} (answers : List ReadAnswer)
        → rt.running ≡ true
        → poll_once fl t d answers rt ≡ some next
        → Step rt next
    writes : (cmd : WriteCmd F) → Step rt (write fl t d cmd rt).0
    serves : rt.running ≡ true → Step rt (serve fl t d rt)
    stops : Step rt (stop fl t d rt)

  pub data Reach (rt : Runtime F) : Runtime F → Type 0 where
    here : Reach rt rt
    next : {a b : Runtime F} → Reach rt a → Step a b → Reach rt b

  -- The command names a point of the device that is not read-only.
  abbrev pub IsWritable : WriteCmd F → Type 0
  IsWritable cmd =
      (p : ModbusPointConfig F) × (find_point fl cmd.point_name d.points ≡ some p)
      × (is_read_only p.access ≡ false)

  -- The request writes a point of the device that is not read-only, by a function that fits it.
  abbrev pub IsAllowed : Request → Type 0
  IsAllowed r =
      (name : Bytes) × (p : ModbusPointConfig F) × (find_point fl name d.points ≡ some p)
      × (is_read_only p.access ≡ false)
      × IsRequestFor p r

  pub record IsSafe (rt : Runtime F) : Type 0 where
    pub queue_bound : length rt.queue ≤ queue_size
    pub writable : All IsWritable rt.queue
    pub allowed : All IsAllowed rt.sent

  enqueue-IsSafe :
      (cmd : WriteCmd F) (rt : Runtime F)
      → IsSafe rt
      → IsWritable cmd
      → IsSafe (enqueue fl t d cmd rt).0
  enqueue-IsSafe cmd rt s w = elim (Bool-cases (ltb (length rt.queue) queue_size)) [
    | inl room ↦ rw room (record {
      queue_bound =
          omega
            (arith, length-append rt.queue (cmd ∷ []), ltb→lt (length rt.queue) queue_size room);
      writable = All-append IsWritable rt.queue (cmd ∷ []) s.writable (w, tt);
      allowed = s.allowed;
    })
    | inr full ↦ rw full s
  ]

  write_found-IsSafe :
      (cmd : WriteCmd F) (found : Option (ModbusPointConfig F)) (rt : Runtime F)
      → IsSafe rt
      → find_point fl cmd.point_name d.points ≡ found
      → IsSafe (write_found fl t d cmd found rt).0
  write_found-IsSafe cmd none rt s e = s
  write_found-IsSafe cmd (some p) rt s e = elim (Bool-cases (is_read_only p.access)) [
    | inl ro ↦ rw ro s
    | inr open_point ↦ rw open_point (enqueue-IsSafe cmd rt s (p, e, open_point))
  ]

  write-IsSafe : (cmd : WriteCmd F) (rt : Runtime F) → IsSafe rt → IsSafe (write fl t d cmd rt).0
  unfolding write
  write-IsSafe cmd rt s = elim (Bool-cases (is_online rt.state)) [
    | inl on ↦ rw on (write_found-IsSafe cmd (find_point fl cmd.point_name d.points) rt s refl)
    | inr off ↦ rw off s
  ]

  send-IsSafe :
      (r : Request) (answers : List Bool) (rt : Runtime F)
      → IsSafe rt
      → IsAllowed r
      → IsSafe (send fl t d r answers rt).0
  send-IsSafe r [] rt s a = record {
    queue_bound = s.queue_bound;
    writable = s.writable;
    allowed = All-append IsAllowed rt.sent (r ∷ []) s.allowed (a, tt);
  }
  send-IsSafe r (true ∷ answers) rt s a = record {
    queue_bound = s.queue_bound;
    writable = s.writable;
    allowed = All-append IsAllowed rt.sent (r ∷ []) s.allowed (a, tt);
  }
  send-IsSafe r (false ∷ answers) rt s a = record {
    queue_bound = s.queue_bound;
    writable = s.writable;
    allowed = All-append IsAllowed rt.sent (r ∷ []) s.allowed (a, tt);
  }

  send_planned-IsSafe :
      (planned : Planned) (rt : Runtime F)
      → IsSafe rt
      → ((r : Request) → planned ≡ request r → IsAllowed r)
      → IsSafe (send_planned fl t d planned rt).0
  send_planned-IsSafe (no_request e) rt s a = s
  send_planned-IsSafe (request r) rt s a = send-IsSafe r rt.answers rt s (a r refl)

  execute_write-IsSafe :
      (cmd : WriteCmd F) (rt : Runtime F)
      → IsSafe rt
      → IsWritable cmd
      → IsSafe (execute_write fl t d cmd rt).0
  unfolding execute_write
  execute_write-IsSafe cmd rt s (p, found, access) = rw found (
      send_planned-IsSafe (plan_write fl p cmd.value) rt s
        (λ r e. (cmd.point_name, p, found, access, plan_write-IsRequestFor fl p cmd.value r e)))

  reply-IsSafe :
      (cmd : WriteCmd F) (out : Runtime F × Option WriteError)
      → IsSafe out.0
      → IsSafe (reply fl t d cmd out)
  reply-IsSafe cmd (rt, none) s = record {
    queue_bound = s.queue_bound;
    writable = s.writable;
    allowed = s.allowed;
  }
  reply-IsSafe cmd (rt, some e) s = record {
    queue_bound = s.queue_bound;
    writable = s.writable;
    allowed = s.allowed;
  }

  serve_queue-IsSafe :
      (queue : List (WriteCmd F)) (rt : Runtime F)
      → rt.queue ≡ queue
      → IsSafe rt
      → IsSafe (serve_queue fl t d queue rt)
  serve_queue-IsSafe [] rt e s = s
  serve_queue-IsSafe (cmd ∷ queue) rt e s =
      let w : All IsWritable (cmd ∷ queue) = subst (All IsWritable) e s.writable in
      let after : Runtime F = record rt { queue = queue } in
      let safe : IsSafe after = record {
        queue_bound = omega (arith, s.queue_bound, ap length e);
        writable = w.1;
        allowed = s.allowed;
      } in
      reply-IsSafe cmd (execute_write fl t d cmd after) (execute_write-IsSafe cmd after safe w.0)

  poll_with-IsSafe :
      (h : Option Bytes) (answers : List ReadAnswer) (rt out : Runtime F)
      → poll_with fl t d h answers rt ≡ some out
      → IsSafe rt
      → IsSafe out
  poll_with-IsSafe none answers rt out e s = subst IsSafe (some-injective rt out e) s
  poll_with-IsSafe (some h) answers rt out e s =
      let r : Polled = poll_points fl t d h d.points answers in
      elim (Bool-cases r.crashed) [
        | inl crash ↦ cc (rw crash at e)
        | inr fine ↦
            let same = some-injective _ out (rw fine at e) in
            rw (← same)
              (record { queue_bound = s.queue_bound; writable = s.writable; allowed = s.allowed })
      ]

  Step-IsSafe : {a b : Runtime F} → Step a b → IsSafe a → IsSafe b
  unfolding poll_once serve stop
  Step-IsSafe {a} {b} (polls answers runs e) s = poll_with-IsSafe (hash t d) answers a b e s
  Step-IsSafe {a} (writes cmd) s = write-IsSafe cmd a s
  Step-IsSafe {a} (serves runs) s = serve_queue-IsSafe a.queue a refl s
  Step-IsSafe stops s = record {
    queue_bound = s.queue_bound;
    writable = s.writable;
    allowed = s.allowed;
  }

  Reach-IsSafe : {a b : Runtime F} → IsSafe a → Reach a b → IsSafe b
  Reach-IsSafe s here = s
  Reach-IsSafe s (next r step) = Step-IsSafe step (Reach-IsSafe s r)

  new_runtime-IsSafe :
      (answers : List Bool) (rt : Runtime F) → new_runtime fl t d answers ≡ some rt → IsSafe rt
  unfolding new_runtime
  new_runtime-IsSafe answers rt h = elim (Bool-cases (has_handler d.type)) [
    | inl known ↦
        let same = some-injective _ rt (rw known at h) in
        rw (← same) (record { queue_bound = omega arith; writable = tt; allowed = tt })
    | inr unknown ↦ cc (rw unknown at h)
  ]

  start-IsSafe :
      (connected : Bool) (rt : Runtime F) → IsSafe rt → IsSafe (start fl t d connected rt)
  unfolding start
  start-IsSafe true rt s = record {
    queue_bound = s.queue_bound;
    writable = s.writable;
    allowed = s.allowed;
  }
  start-IsSafe false rt s = s

  -- Whatever order polls, calls of `Write`, turns of the write loop and a `Stop` take after a runtime
  -- was made and started, with success or without: the channel holds at most 16 commands, each for a
  -- point of the device that is not read-only, and every request that the Modbus client ever got for a
  -- write is for such a point, with its address, and by the function that fits its data type.
  pub started-IsSafe :
      (answers : List Bool) (connected : Bool) (rt out : Runtime F)
      → new_runtime fl t d answers ≡ some rt
      → Reach (start fl t d connected rt) out
      → IsSafe out
  started-IsSafe answers connected rt out h r =
      Reach-IsSafe (start-IsSafe connected rt (new_runtime-IsSafe answers rt h)) r
