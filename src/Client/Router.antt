-- ===== src/Client/Router.antt =====
-- internal/client/client.go: the router of the server's messages (`msgRouter`, `readLoop`) and the
-- registry of Modbus runtimes. A channel is the list of what was put into it: that a full channel holds
-- the reader up is not modelled.
pub mod Laws
use lepg.Base.{
  ℕ, zero, suc, Bytes, Bool, List, [], ◌∷◌, ◌++◌, Option, none, some, ◌==◌, if◌then◌else◌,
  StringMap, find, put, delete,
}
use lepg.Errors.{Error, Result, ok, err}
use lepg.Conn.{Conn}
use lepg.Msg.{Msg, decode_frame}
use lepg.Packet.{Packable, parse_msg, packet_registry}

-- `routes`: what each registered channel got.
pub record MsgRouter : Type 0 where
  pub routes : ℕ → Option (List Packable)

-- `newMsgRouter`, `register` with a new channel, `unregister`
unfoldable pub new_msg_router : MsgRouter
new_msg_router = record { routes = λ t. none }

unfoldable pub register : ℕ → MsgRouter → MsgRouter
register msg_type r = record { routes = λ t. if t == msg_type then some [] else r.routes t }

unfoldable pub unregister : ℕ → MsgRouter → MsgRouter
unregister msg_type r = record { routes = λ t. if t == msg_type then none else r.routes t }

abbrev pub add_item : Packable → Option (List Packable) → Option (List Packable)
add_item p none = none
add_item p (some items) = some (items ++ p ∷ [])

-- `dispatch`: a type without a channel is dropped
unfoldable pub dispatch : ℕ → Packable → MsgRouter → MsgRouter
dispatch msg_type p r = record {
  routes = λ t. if t == msg_type then add_item p (r.routes t) else r.routes t;
}

-- A frame that cannot be parsed is skipped.
abbrev pub deliver : ℕ → Result Packable → MsgRouter → MsgRouter
deliver msg_type (err e) r = r
deliver msg_type (ok p) r = dispatch msg_type p r

abbrev after_frame :
    (Conn → MsgRouter → Option (Error × Conn × MsgRouter))
    → MsgRouter
    → Result Msg × Conn
    → Option (Error × Conn × MsgRouter)
after_frame again r (err e, c) = some (e, c, r)
after_frame again r (ok m, c) = again c (deliver m.type (parse_msg packet_registry m) r)

-- `readLoop` on fuel: the error that ended it. It closes `connDead` then.
unfoldable pub read_loop : ℕ → Conn → MsgRouter → Option (Error × Conn × MsgRouter)
read_loop zero c r = none
read_loop (suc fuel) c r = after_frame (read_loop fuel) r (decode_frame c)

module _ {ℓ} {A : Type ℓ} where
  -- `registerModbusRuntime`, `unregisterModbusRuntime`, `GetModbusRuntime`
  unfoldable pub register_modbus_runtime : Bytes → A → StringMap A → StringMap A
  register_modbus_runtime name rt runtimes = put name rt runtimes

  unfoldable pub unregister_modbus_runtime : Bytes → StringMap A → StringMap A
  unregister_modbus_runtime name runtimes = delete name runtimes

  unfoldable pub get_modbus_runtime : Bytes → StringMap A → Option A
  get_modbus_runtime name runtimes = find name runtimes
