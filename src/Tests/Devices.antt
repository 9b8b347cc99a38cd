-- ===== src/Tests/Devices.antt =====
-- A Modbus device with two points: its writes, polls and the end of its goroutines.
use lepg.Base.{
  ℕ, ◌<◌, ◌≡◌, ◌↔◌, codes, bytes_eq, true, false, List, [], ◌∷◌, none, some, refl, arith, inl,
}
use Prim.Native.String.{String}
use lepg.Base.Int.{ℤ, pos}
use lepg.Model.Modbus.{
  AccessType, read_write, ByteOrder, little_endian, mid_big_endian, tcp, byte_order_conversion,
}
use lepg.Model.Value.{DataType, int32, float32}
use lepg.Config.Point.{ModbusPointConfig}
use lepg.Config.Device.{DeviceConfig, hash, hash_input}
use lepg.Modbus.Point.{panicked, parse_point_value}
use lepg.Modbus.Point.Laws.{
  IsIntExact, parse_point_value_panics, plan_write_reorders, plan_write-parse_point_value_float32,
}
use lepg.Modbus.Write.{request, write_multiple_registers, plan_write, find_point}
use lepg.Modbus.Runtime.{
  State, online, degraded, WriteCmd, Runtime, ReadAnswer, is_polled, poll_points, new_runtime,
  start, stop, poll_once, write, serve,
}
use lepg.Modbus.Runtime.Steps.{here, next, writes, serves, IsSafe, started-IsSafe}
use lepg.Modbus.Runtime.Progress.{serve_times, answered, serve_times_answers, poll_once-write}
use lepg.Modbus.Runtime.Stop.{write-stop}
use lepg.Modbus.Runtime.Steps.{Reach}
use lepg.Tests.Numbers.{integers, texts, int16_exact, int32_exact}

abbrev pub point : String → ℕ → DataType → ByteOrder → AccessType → ModbusPointConfig ℤ
point name address data_type order access = record {
  name = codes name;
  function_code = pos 3;
  address = address;
  quantity = 2;
  data_type = data_type;
  byte_order = order;
  scale = pos 1;
  offset = pos 0;
  unit = [];
  access = access;
  cache_enabled = true;
}

abbrev counter : ModbusPointConfig ℤ
counter = point "counter" 7 int32 little_endian read_write

abbrev level : ModbusPointConfig ℤ
level = point "level" 9 float32 mid_big_endian read_write

abbrev pub device : DeviceConfig ℤ
device = record {
  name = codes "pump";
  type = tcp;
  timeout = pos 5;
  offline_threshold = pos 30;
  enable_monitor = true;
  rtu_config = none;
  tcp_config = some (record { host = codes "10.0.0.7"; port = pos 502 });
  slave_id = 1;
  points = counter ∷ level ∷ [];
  poll_interval = pos 10;
}

integers-IsIntExact : IsIntExact integers
integers-IsIntExact = record {
  int16_exact = int16_exact;
  uint16_exact = λ w h. omega arith;
  int32_exact = int32_exact;
  uint32_exact = λ w h. omega arith;
}

-- An answer of two bytes for a 32-bit integer.
parse_point_value_panics_example :
    (parse_point_value integers counter (1 ∷ 2 ∷ []) ≡ panicked) ↔ (2 < 4)
parse_point_value_panics_example = parse_point_value_panics integers counter (1 ∷ 2 ∷ [])

plan_write_reorders_example :
    plan_write integers counter (pos 66051)
    ≡ request (write_multiple_registers 7 2 (3 ∷ 2 ∷ 1 ∷ 0 ∷ []))
unfolding parse_point_value byte_order_conversion
plan_write_reorders_example =
    plan_write_reorders integers counter integers-IsIntExact refl 0 1 2 3 [] (pos 66051) (inl refl)
      (omega arith) refl refl

plan_write-parse_point_value_float32_example :
    plan_write integers level (pos 33751041)
    ≡ request (write_multiple_registers 9 2 (0 ∷ 1 ∷ 2 ∷ 3 ∷ []))
unfolding parse_point_value byte_order_conversion
plan_write-parse_point_value_float32_example =
    plan_write-parse_point_value_float32 integers level 0 1 2 3 [] (pos 33751041) refl refl
      (omega arith) refl refl refl

abbrev set_counter : WriteCmd ℤ
set_counter = record { point_name = codes "counter"; value = pos 5 }

abbrev made : Runtime ℤ
made = record {
  state = State.offline;
  running = false;
  queue = [];
  sent = [];
  answers = true ∷ [];
  replies = [];
  readings = [];
}

abbrev waiting : Runtime ℤ
waiting = record made { state = online; running = true; queue = set_counter ∷ set_counter ∷ [] }

started-IsSafe_example : IsSafe integers texts device (
    serve integers texts device
      (write integers texts device set_counter (start integers texts device true made)).0)
unfolding start write find_point bytes_eq
started-IsSafe_example =
    started-IsSafe integers texts device (true ∷ []) true made
      (serve integers texts device
        (write integers texts device set_counter (start integers texts device true made)).0)
      (unfold new_runtime in refl) (next (next here (writes set_counter)) (serves refl))

-- Two commands, of which the device answers one.
serve_times_answers_example :
    let out = serve_times integers texts device 2 waiting in
    (out.queue ≡ []) × (answered integers texts device out ≡ set_counter ∷ set_counter ∷ [])
serve_times_answers_example = serve_times_answers integers texts device waiting

abbrev troubled : Runtime ℤ
troubled = record waiting { state = degraded; queue = [] }

-- The device answers both reads.
abbrev both_answered : List ReadAnswer
both_answered = (some (0 ∷ 0 ∷ 0 ∷ 5 ∷ []), 1000) ∷ (some (0 ∷ 0 ∷ 0 ∷ 6 ∷ []), 1001) ∷ []

polled : (out : Runtime ℤ) × (poll_once integers texts device both_answered troubled ≡ some out)
unfolding poll_once hash hash_input poll_points is_polled parse_point_value
polled = (_, refl)

poll_once-write_example :
    (polled.0.state ≡ online)
    × (write integers texts device set_counter polled.0
        ≡ (record polled.0 { queue = set_counter ∷ [] }, none))
unfolding find_point bytes_eq
poll_once-write_example =
    poll_once-write integers texts device both_answered troubled polled.0 set_counter counter
      (unfold hash hash_input in λ e. cc) ((_, refl), ((_, refl), tt)) (omega arith) polled.1 refl
      refl (omega arith)

-- A command that comes after the end.
abbrev busy : Runtime ℤ
busy = record waiting { queue = set_counter ∷ [] }

write-stop_example :
    let written = write integers texts device set_counter (stop integers texts device busy) in
    (written.1 ≡ none)
    × ((out : Runtime ℤ)
        → Reach integers texts device written.0 out
        → ((more : List (WriteCmd ℤ)) × (out.queue ≡ set_counter ∷ set_counter ∷ more))
          × (out.replies ≡ [])
          × (out.sent ≡ [])
          × (out.state ≡ online))
unfolding find_point bytes_eq
write-stop_example =
    write-stop integers texts device busy set_counter counter refl refl refl (omega arith)
