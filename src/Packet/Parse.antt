-- ===== src/Packet/Parse.antt =====
-- The registry of decoders.
use lepg.Base.{ℕ, ◌≡◌, ◌⊎◌, inl, inr, refl, arith, [], ◌∷◌, Bytes, append-nil, ◌==◌, if◌then◌else◌}
use lepg.Errors.{ok, err, unknown_packet_type, ok-injective}
use lepg.MsgType
use lepg.Msg.{Msg}
use lepg.Payload.Handshake.Laws.{decode-encode_handshake}
use lepg.Payload.Ack.Laws.{decode-encode_ack}
use lepg.Payload.Upload.Laws.{decode-encode_upload}
use lepg.Payload.Notify.Laws.{decode-encode_notify}
use lepg.Packet.{
  Packable, handshake, ack, upload, heartbeat, notify, encode, Ctor, Registry, register_packet_type,
  unregister_packet_type, parse_msg, packet_registry, decode_handshake, decode_upload,
  decode_heartbeat, decode_heartbeat_payload, decode_notify, decode_ack,
}
use lepg.Packet.Widths.{IsPackable}

-- Whether a message of type `t` may carry the payload.
abbrev pub Carries : ℕ → Packable → Type 0
Carries t (handshake p) = t ≡ MsgType.handshake
Carries t (ack p) =
    (t ≡ MsgType.handshake_ack) ⊎ ((t ≡ MsgType.upload_ack) ⊎ (t ≡ MsgType.heartbeat_ack))
Carries t (upload p) = t ≡ MsgType.upload
Carries t heartbeat = t ≡ MsgType.heartbeat
Carries t (notify p) = t ≡ MsgType.notify

parse_msg-unregister :
    (t : ℕ) (r : Registry) (m : Msg)
    → parse_msg (unregister_packet_type t r) m
      ≡ (if t == m.type then err unknown_packet_type else parse_msg r m)
unfolding parse_msg unregister_packet_type
parse_msg-unregister t [] m = ground arith
parse_msg-unregister t ((s, ctor) ∷ r) m = ground (arith, parse_msg-unregister t r m)

-- After a registration messages of that type go to the new decoder, and after its removal they are
-- unknown; messages of the other types are parsed as before in both cases.
pub parse_msg-register :
    (t : ℕ) (ctor : Ctor) (r : Registry) (m : Msg)
    → (parse_msg (register_packet_type t ctor r) m
        ≡ (if t == m.type then ctor m else parse_msg r m))
      × (parse_msg (unregister_packet_type t r) m
          ≡ (if t == m.type then err unknown_packet_type else parse_msg r m))
unfolding parse_msg register_packet_type
parse_msg-register t ctor r m =
    (ground (arith, parse_msg-unregister t r m), parse_msg-unregister t r m)

-- The decoder that the program has registered for each type.
module _ (m : Msg) where
  parse_handshake : m.type ≡ MsgType.handshake → parse_msg packet_registry m ≡ decode_handshake m
  unfolding parse_msg packet_registry
  parse_handshake e = rw e refl

  parse_upload : m.type ≡ MsgType.upload → parse_msg packet_registry m ≡ decode_upload m
  unfolding parse_msg packet_registry
  parse_upload e = rw e refl

  parse_heartbeat : m.type ≡ MsgType.heartbeat → parse_msg packet_registry m ≡ decode_heartbeat m
  unfolding parse_msg packet_registry
  parse_heartbeat e = rw e refl

  parse_notify : m.type ≡ MsgType.notify → parse_msg packet_registry m ≡ decode_notify m
  unfolding parse_msg packet_registry
  parse_notify e = rw e refl

  parse_ack :
      (m.type ≡ MsgType.handshake_ack)
        ⊎ ((m.type ≡ MsgType.upload_ack) ⊎ (m.type ≡ MsgType.heartbeat_ack))
      → parse_msg packet_registry m ≡ decode_ack m
  unfolding parse_msg packet_registry
  parse_ack (inl e) = rw e refl
  parse_ack (inr (inl e)) = rw e refl
  parse_ack (inr (inr e)) = rw e refl

-- The payload of a message, parsed back: what the encoder of a packet wrote, in a message of its
-- type.
pub parse_msg-encode :
    (p : Packable) (bs : Bytes) (m : Msg)
    → IsPackable p
    → Carries m.type p
    → encode p ≡ ok bs
    → m.payload ≡ bs
    → parse_msg packet_registry m ≡ ok p
unfolding encode decode_handshake decode_ack decode_upload decode_heartbeat decode_notify
    decode_heartbeat_payload
parse_msg-encode (handshake p) bs m h t e c =
    let back = rw append-nil at (decode-encode_handshake p [] bs e) in
    rw (parse_handshake m t, c, back)
parse_msg-encode (ack p) bs m h t e c =
    let back = rw append-nil at (decode-encode_ack p [] bs h.0 e) in rw (parse_ack m t, c, back)
parse_msg-encode (upload p) bs m (w, _, fits) t e c =
    let back = rw append-nil at (decode-encode_upload p [] bs w fits e) in
    rw (parse_upload m t, c, back)
parse_msg-encode heartbeat bs m h t e c = rw (parse_heartbeat m t, c, ← ok-injective [] bs e)
parse_msg-encode (notify p) bs m (_, _, time, _, _, _, raw) t e c =
    let back = rw append-nil at (decode-encode_notify p [] bs time raw e) in
    rw (parse_notify m t, c, back)
