-- ===== src/Packet/Transport.antt =====
-- A packet from its construction on one side to its parsing on the other, and the ids and sizes of
-- the messages that the factory builds.
use lepg.Base.{
  ℕ, zero, suc, ◌+◌, ◌%◌, ◌^◌, ◌<◌, ◌≡◌, ◌≢◌, inl, inr, refl, ap, arith, ◌++◌, Bytes, length,
}
use lepg.Errors.{ok}
use lepg.Timestamp.{from_unix_milli, from_unix_milli-lt}
use lepg.Conn.{Conn}
use lepg.Msg as Frame
use lepg.Msg.{Msg, IsWire, magic_number, version, decode_frame}
use lepg.Msg.RoundTrip.{received, decode_frame-encode}
use lepg.Packet.{
  Packable, handshake, ack, upload, heartbeat, notify, encode, MsgFactory, next, new_msg, parse_msg,
  packet_registry,
}
use lepg.Packet.Widths.{IsPackable, encode-IsBytes}
use lepg.Packet.Parse.{Carries, parse_msg-encode}

-- What `NewMsg` returns when it succeeds.
pub new_msg-eq-ok :
    (f f' : MsgFactory) (now t : ℕ) (p : Packable) (m : Msg)
    → new_msg f now t p ≡ (ok m, f')
    → (encode p ≡ ok m.payload)
      × (m ≡ record {
        magic = magic_number;
        version = version;
        flags = 0;
        type = t;
        msg_id = (next f).0;
        payload_len = length m.payload % 65536;
        timestamp = from_unix_milli now;
        payload = m.payload;
        checksum = 0;
      })
      × (f' ≡ (next f).1)
unfolding new_msg
new_msg-eq-ok f f' now t p m e = ground arith

Carries-lt : (t : ℕ) (p : Packable) → Carries t p → t < 256
Carries-lt t (handshake p) c = omega arith
Carries-lt t (ack p) (inl c) = omega arith
Carries-lt t (ack p) (inr (inl c)) = omega arith
Carries-lt t (ack p) (inr (inr c)) = omega arith
Carries-lt t (upload p) c = omega arith
Carries-lt t heartbeat c = omega arith
Carries-lt t (notify p) c = omega arith

-- The messages of the factory fit the wire.
new_msg-IsWire :
    (f f' : MsgFactory) (now t : ℕ) (p : Packable) (m : Msg)
    → IsPackable p
    → t < 256
    → new_msg f now t p ≡ (ok m, f')
    → IsWire m
unfolding next
new_msg-IsWire f f' now t p m h small e =
    let (encoded, built, _) = new_msg-eq-ok f f' now t p m e in
    let bytes = encode-IsBytes p m.payload h encoded in
    record {
      magic = ap (λ (x : Msg). x.magic) built;
      version = omega (arith, ap (λ (x : Msg). x.version) built);
      flags = omega (arith, ap (λ (x : Msg). x.flags) built);
      type = omega (arith, ap (λ (x : Msg). x.type) built);
      msg_id = omega (arith, ap (λ (x : Msg). x.msg_id) built);
      timestamp = omega (arith, ap (λ (x : Msg). x.timestamp) built, from_unix_milli-lt now);
      payload = bytes;
    }

-- A packet that one side hands to `NewMsg` under its message type, encodes and writes, the other side
-- reads with `DecodeFrame` and `ParseMsg` back to the very same packet, and the bytes behind the
-- frame stay on the connection. The packet's fields fit their Go types and its encoding is shorter
-- than 65536 bytes.
pub parse_msg-decode_frame-new_msg :
    (f f' : MsgFactory) (now t : ℕ) (p : Packable) (m : Msg) (rest : Bytes) (c : Conn)
    → IsPackable p
    → Carries t p
    → new_msg f now t p ≡ (ok m, f')
    → length m.payload < 65536
    → c.incoming ≡ (Frame.encode m).0 ++ rest
    → (decode_frame c ≡ (ok (received m), record c { incoming = rest }))
      × (parse_msg packet_registry (received m) ≡ ok p)
parse_msg-decode_frame-new_msg f f' now t p m rest c h carries e fits arrives =
    let (encoded, built, _) = new_msg-eq-ok f f' now t p m e in
    let is_type : m.type ≡ t = ap (λ (x : Msg). x.type) built in
    (
      decode_frame-encode m rest c (new_msg-IsWire f f' now t p m h (Carries-lt t p carries) e) fits
          arrives,
      parse_msg-encode p m.payload (received m) h (rw is_type carries) encoded refl,
    )

-- The factory after `n` messages.
abbrev pub advance : ℕ → MsgFactory → MsgFactory
advance zero f = f
advance (suc n) f = advance n (next f).1

current-advance :
    (n : ℕ) (f : MsgFactory) → f.current < 2 ^ 32 → (advance n f).current ≡ (f.current + n) % 2 ^ 32
unfolding next
current-advance zero f h = omega arith
current-advance (suc n) f h = omega (arith, current-advance n (next f).1 (omega arith))

-- The ids of a factory are 16-bit numbers, and no two of 65536 consecutive ones are the same, also
-- where the 32-bit counter wraps.
pub next-distinct :
    (f : MsgFactory) (i j : ℕ)
    → f.current < 2 ^ 32
    → i < j
    → j < i + 65536
    → ((next (advance i f)).0 < 65536) × ((next (advance i f)).0 ≢ (next (advance j f)).0)
unfolding next
next-distinct f i j h lo hi =
    let at_i = current-advance i f h in
    let at_j = current-advance j f h in (omega arith, λ e. absurd (omega arith))
