-- ===== src/Modbus/Runtime.antt =====
-- internal/client/modbus_runtime.go: `ModbusRuntime`. A poll, the front half of `Write` (up to the
-- channel), one turn of `writeLoop` and `Stop` are functions on the state; each runs as one step.
pub mod Steps
pub mod Progress
pub mod Stop
use lepg.Base.{
  ℕ, zero, suc, ◌+◌, Bytes, Bool, true, false, ◌||◌, List, [], ◌∷◌, ◌++◌, length, drop, Option,
  none, some, ltb, ◌==◌, if◌then◌else◌,
}
use lepg.Base.Int.{ℤ, pos, negsuc}
use lepg.Float.{Float}
use lepg.Reading.{Reading}
use lepg.Model.Modbus.{
  AccessType, read_only, write_only, ConnectionType, rtu, tcp, other_connection,
}
use lepg.Model.Value.{Value, Texts, hash_point, serialize_value, data_type_name, quality_good}
use lepg.Config.Point.{ModbusPointConfig, is_write_function_code, is_read_only}
use lepg.Config.Device.{DeviceConfig, hash}
use lepg.Modbus.Point.{Parsed, panicked, no_value, parsed, parse_point_value}
use lepg.Modbus.Write.{
  Request, WriteError, not_online, unknown_point, read_only_point, channel_full, request_failed,
  Planned, no_request, request, plan_write, find_point,
}

-- `stateOffline`, `stateOnline`, `stateDegraded`
pub data State : Type 0 where
  offline online degraded : State

-- `writeCmd`; `resultCh` is the reply that the runtime keeps with it.
pub record WriteCmd (F : Type 0) : Type 0 where
  pub point_name : Bytes
  pub value : F

-- The channel of commands, whether the goroutines run, what was asked of the Modbus client, its
-- answers to the writes to come (`true` is no error; where the list ends a write fails), the replies
-- to the commands, and the readings handed on.
pub record Runtime (F : Type 0) : Type 0 where
  pub state : State
  pub running : Bool
  pub queue : List (WriteCmd F)
  pub sent : List Request
  pub answers : List Bool
  pub replies : List (WriteCmd F × Option WriteError)
  pub readings : List Reading

-- `make(chan writeCmd, 16)`
abbrev pub queue_size : ℕ
queue_size = 16

-- `createHandler` succeeds for the two connection types.
abbrev pub has_handler : ConnectionType → Bool
has_handler rtu = true
has_handler tcp = true
has_handler (other_connection s) = false

abbrev pub is_online : State → Bool
is_online online = true
is_online _ = false

abbrev pub is_write_only : AccessType → Bool
is_write_only write_only = true
is_write_only _ = false

-- The read function codes of the `switch` of `pollOnce`.
abbrev is_read_code : ℕ → Bool
is_read_code n = n == 1 || (n == 2 || (n == 3 || n == 4))

abbrev pub reads_by : ℤ → Bool
reads_by (pos n) = is_read_code n
reads_by (negsuc n) = false

-- The bytes of a read, or its error, and the clock behind it.
abbrev pub ReadAnswer : Type 0
ReadAnswer = Option Bytes × ℕ

-- What one walk over the points does: its readings, whether a read failed, whether it panicked.
pub record Polled : Type 0 where
  pub readings : List Reading
  pub had_error : Bool
  pub crashed : Bool

module _ (fl : Float) (t : Texts fl.F) (d : DeviceConfig fl.F) where
  open fl use {F}

  -- `NewModbusRuntime`, with the answers to come
  unfoldable pub new_runtime : List Bool → Option (Runtime F)
  new_runtime answers =
      if has_handler d.type
      then some (record {
        state = offline;
        running = false;
        queue = [];
        sent = [];
        answers = answers;
        replies = [];
        readings = [];
      })
      else none

  -- `Start`, where `Connect` succeeds or fails
  unfoldable pub start : Bool → Runtime F → Runtime F
  start true rt = record rt { state = online; running = true }
  start false rt = rt

  -- `Stop`: it waits until both goroutines have ended.
  unfoldable pub stop : Runtime F → Runtime F
  stop rt = record rt { running = false }

  -- Is the point read in a poll?
  unfoldable pub is_polled : ModbusPointConfig F → Bool
  unfolding is_write_function_code
  is_polled p =
      if is_write_only p.access
      then false
      else if is_write_function_code p.function_code
      then false
      else reads_by p.function_code

  abbrev pub reading_of : Bytes → ModbusPointConfig F → Value F → ℕ → Reading
  reading_of device_hash p value now = record {
    id = 0;
    device = device_hash;
    device_name = d.name;
    point = hash_point t d.name p.name;
    point_name = p.name;
    data_type = data_type_name p.data_type;
    value = serialize_value t p.data_type value;
    quality = quality_good;
    unit = p.unit;
    timestamp = now;
  }

  abbrev after_parse : Bytes → ModbusPointConfig F → Parsed F → ℕ → Polled → Polled
  after_parse device_hash p panicked now next = record {
    readings = [];
    had_error = false;
    crashed = true;
  }
  after_parse device_hash p no_value now next = next
  after_parse device_hash p (parsed v) now next = record next {
    readings = reading_of device_hash p v now ∷ next.readings;
  }

  abbrev after_read : Bytes → ModbusPointConfig F → List ReadAnswer → Polled → Polled
  after_read device_hash p [] next = record next { had_error = true }
  after_read device_hash p ((none, now) ∷ answers) next = record next { had_error = true }
  after_read device_hash p ((some results, now) ∷ answers) next =
      after_parse device_hash p (parse_point_value fl p results) now next

  -- The loop over the points. A read takes the next answer; where the list ends the read fails.
  unfoldable pub poll_points : Bytes → List (ModbusPointConfig F) → List ReadAnswer → Polled
  unfolding is_polled
  poll_points device_hash [] answers = record { readings = []; had_error = false; crashed = false }
  poll_points device_hash (p ∷ points) answers =
      let next : Polled =
        poll_points device_hash points (if is_polled p then drop 1 answers else answers) in
      if is_polled p then after_read device_hash p answers next else next

  abbrev pub end_poll : Polled → Runtime F → Option (Runtime F)
  end_poll r rt =
      if r.crashed
      then none
      else some (record rt {
        readings = rt.readings ++ r.readings;
        state = if r.had_error then degraded else online;
      })

  abbrev pub poll_with : Option Bytes → List ReadAnswer → Runtime F → Option (Runtime F)
  poll_with none answers rt = some rt
  poll_with (some device_hash) answers rt = end_poll (poll_points device_hash d.points answers) rt

  -- `pollOnce`: `none` is a panic
  unfoldable pub poll_once : List ReadAnswer → Runtime F → Option (Runtime F)
  poll_once answers rt = poll_with (hash t d) answers rt

  abbrev enqueue : WriteCmd F → Runtime F → Runtime F × Option WriteError
  enqueue cmd rt =
      if ltb (length rt.queue) queue_size
      then (record rt { queue = rt.queue ++ cmd ∷ [] }, none)
      else (rt, some channel_full)

  abbrev write_found :
      WriteCmd F → Option (ModbusPointConfig F) → Runtime F → Runtime F × Option WriteError
  write_found cmd none rt = (rt, some unknown_point)
  write_found cmd (some p) rt =
      if is_read_only p.access then (rt, some read_only_point) else enqueue cmd rt

  -- `Write` up to the channel: the error that it returns, or the command is in the channel
  unfoldable pub write : WriteCmd F → Runtime F → Runtime F × Option WriteError
  write cmd rt =
      if is_online rt.state
      then write_found cmd (find_point fl cmd.point_name d.points) rt
      else (rt, some not_online)

  -- `rt.client.Write...(...)`: the next answer of the client
  abbrev send : Request → List Bool → Runtime F → Runtime F × Option WriteError
  send r [] rt = (record rt { sent = rt.sent ++ r ∷ [] }, some request_failed)
  send r (true ∷ answers) rt = (record rt { sent = rt.sent ++ r ∷ []; answers = answers }, none)
  send r (false ∷ answers) rt =
      (record rt { sent = rt.sent ++ r ∷ []; answers = answers }, some request_failed)

  abbrev send_planned : Planned → Runtime F → Runtime F × Option WriteError
  send_planned (no_request e) rt = (rt, some e)
  send_planned (request r) rt = send r rt.answers rt

  abbrev execute_found :
      F → Option (ModbusPointConfig F) → Runtime F → Runtime F × Option WriteError
  execute_found value none rt = (rt, some unknown_point)
  execute_found value (some p) rt = send_planned (plan_write fl p value) rt

  -- `executeWrite`
  unfoldable pub execute_write : WriteCmd F → Runtime F → Runtime F × Option WriteError
  execute_write cmd rt = execute_found cmd.value (find_point fl cmd.point_name d.points) rt

  abbrev reply : WriteCmd F → Runtime F × Option WriteError → Runtime F
  reply cmd (rt, none) = record rt { replies = rt.replies ++ (cmd, none) ∷ [] }
  reply cmd (rt, some e) = record rt {
    state = degraded;
    replies = rt.replies ++ (cmd, some e) ∷ [];
  }

  abbrev serve_queue : List (WriteCmd F) → Runtime F → Runtime F
  serve_queue [] rt = rt
  serve_queue (cmd ∷ queue) rt = reply cmd (execute_write cmd (record rt { queue = queue }))

  -- One turn of `writeLoop`; with an empty channel it waits.
  unfoldable pub serve : Runtime F → Runtime F
  serve rt = serve_queue rt.queue rt
