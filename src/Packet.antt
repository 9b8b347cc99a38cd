-- ===== src/Packet.antt =====
-- internal/msg: the payloads as one type, the factory of messages, and the registry by which
-- `ParseMsg` finds the decoder of a message's type.
pub mod Widths
pub mod Parse
pub mod Transport
use lepg.Base.{ℕ, ◌+◌, ◌%◌, ◌^◌, Bool, List, [], ◌∷◌, Bytes, length, ◌==◌, if◌then◌else◌}
use lepg.Errors.{Result, ok, err, ◌>>=◌, not_empty, unknown_packet_type}
use lepg.Timestamp.{from_unix_milli}
use lepg.Msg.{Msg, magic_number, version}
use lepg.MsgType
use lepg.Payload.Handshake
use lepg.Payload.Handshake.{HandshakePayload}
use lepg.Payload.Ack
use lepg.Payload.Ack.{AckPayload}
use lepg.Payload.Upload
use lepg.Payload.Upload.{UploadPayload}
use lepg.Payload.Notify
use lepg.Payload.Notify.{NotifyPayload}

pub data Packable : Type 0 where
  handshake : HandshakePayload → Packable
  ack : AckPayload → Packable
  upload : UploadPayload → Packable
  heartbeat : Packable
  notify : NotifyPayload → Packable

-- `packet.Encode()`, by the packet's type
unfoldable pub encode : Packable → Result Bytes
encode (handshake p) = Handshake.encode p
encode (ack p) = Ack.encode p
encode (upload p) = Upload.encode p
encode heartbeat = ok []
encode (notify p) = Notify.encode p

-- `HeartbeatPayload.Decode`
unfoldable pub decode_heartbeat_payload : Bytes → Result Packable
decode_heartbeat_payload input =
    if length input == 0 then ok heartbeat else err (not_empty (length input))

abbrev pub Ctor : Type 0
Ctor = Msg → Result Packable

unfoldable pub decode_handshake : Ctor
decode_handshake m = Handshake.decode m.payload >>= λ p. ok (handshake p)

unfoldable pub decode_upload : Ctor
decode_upload m = Upload.decode m.payload >>= λ p. ok (upload p)

unfoldable pub decode_heartbeat : Ctor
decode_heartbeat m = decode_heartbeat_payload m.payload

unfoldable pub decode_notify : Ctor
decode_notify m = Notify.decode m.payload >>= λ p. ok (notify p)

unfoldable pub decode_ack : Ctor
decode_ack m = Ack.decode m.payload >>= λ p. ok (ack p)

-- The map `packetRegistry`: one entry for a type at most.
abbrev pub Registry : Type 0
Registry = List (ℕ × Ctor)

unfoldable pub unregister_packet_type : ℕ → Registry → Registry
unregister_packet_type t [] = []
unregister_packet_type t ((s, ctor) ∷ r) =
    if s == t then unregister_packet_type t r else (s, ctor) ∷ unregister_packet_type t r

unfoldable pub register_packet_type : ℕ → Ctor → Registry → Registry
unfolding unregister_packet_type
register_packet_type t ctor r = (t, ctor) ∷ unregister_packet_type t r

unfoldable pub parse_msg : Registry → Msg → Result Packable
parse_msg [] m = err unknown_packet_type
parse_msg ((t, ctor) ∷ r) m = if t == m.type then ctor m else parse_msg r m

-- `init`
unfoldable pub packet_registry : Registry
unfolding register_packet_type
packet_registry = register_packet_type MsgType.heartbeat_ack decode_ack (
    register_packet_type MsgType.upload_ack decode_ack (
      register_packet_type MsgType.handshake_ack decode_ack (
        register_packet_type MsgType.notify decode_notify (
          register_packet_type MsgType.heartbeat decode_heartbeat (
            register_packet_type MsgType.upload decode_upload
              (register_packet_type MsgType.handshake decode_handshake []))))))

-- `atomicIdGenerator`: a uint32 that wraps.
pub record MsgFactory : Type 0 where
  pub current : ℕ

abbrev pub new_msg_factory : MsgFactory
new_msg_factory = record { current = 0 }

-- `Next`
unfoldable pub next : MsgFactory → ℕ × MsgFactory
next f = let current = (f.current + 1) % 2 ^ 32 in (current % 65536, record { current = current })

-- `NewMsg` at the time `now`; no id is taken if the packet does not encode.
unfoldable pub new_msg : MsgFactory → ℕ → ℕ → Packable → Result Msg × MsgFactory
unfolding next
new_msg f now t packet = elim (encode packet) [
  | err e ↦ (err e, f)
  | ok payload ↦
      let (id, f') = next f in
      (
        ok (record {
          magic = magic_number;
          version = version;
          flags = 0;
          type = t;
          msg_id = id;
          payload_len = length payload % 65536;
          timestamp = from_unix_milli now;
          payload = payload;
          checksum = 0;
        }),
        f',
      )
]
