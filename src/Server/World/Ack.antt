-- ===== src/Server/World/Ack.antt =====
-- What `sendAck` changes, and what the gateway reads of it.
use lepg.Base.{
  ℕ, ◌<◌, ◌≡◌, ◌≢◌, ◌⊎◌, inl, inr, refl, arith, Bool, true, false, Bool-cases, List, [], ◌∷◌, ◌++◌,
  Bytes, ◌==◌, ==_iff,
}
use lepg.Errors.{Result, ok, err}
use lepg.Timestamp.{from_unix_milli}
use lepg.Conn.{Conn, write, write_with}
use lepg.Wire.{put_uint16}
use lepg.Msg as Frame
use lepg.Msg.{Msg, magic_number, version, decode_frame}
use lepg.Msg.RoundTrip.{received}
use lepg.Payload.Ack.{AckPayload}
use lepg.Payload.Ack
use lepg.Packet.{MsgFactory, ack, encode, next, new_msg, parse_msg, packet_registry}
use lepg.Packet.Parse.{Carries}
use lepg.Packet.Transport.{parse_msg-decode_frame-new_msg}
use lepg.Reading.{Reading}
use lepg.Server.Dedup.{DedupCache}
use lepg.Server.Connections.{Connections}
use lepg.Server.World.{World, send_ack, send_built}

-- The message of an acknowledgement.
abbrev pub ack_msg : ℕ → ℕ → AckPayload → MsgFactory → Msg
ack_msg now t p f = record {
  magic = magic_number;
  version = version;
  flags = 0;
  type = t;
  msg_id = (next f).0;
  payload_len = 3;
  timestamp = from_unix_milli now;
  payload = put_uint16 p.msg_id ++ (p.code ∷ []);
  checksum = 0;
}

pub new_msg-ack :
    (now t : ℕ) (p : AckPayload) (f : MsgFactory)
    → new_msg f now t (ack p) ≡ (ok (ack_msg now t p f), (next f).1)
unfolding new_msg encode Ack.encode
new_msg-ack now t p f = refl

-- All that the acknowledgement leaves alone.
pub record SameButReply (w w' : World) : Type 0 where
  pub dedup : w'.dedup ≡ w.dedup
  pub connections : w'.connections ≡ w.connections
  pub saved : w'.saved ≡ w.saved
  pub save_results : w'.save_results ≡ w.save_results
  pub published : w'.published ≡ w.published
  pub routed : w'.routed ≡ w.routed
  pub incoming : w'.conn.incoming ≡ w.conn.incoming

write_with-incoming :
    (rs : List Bool) (bs : Bytes) (c : Conn) → (write_with rs bs c).1.incoming ≡ c.incoming
write_with-incoming [] bs c = refl
write_with-incoming (true ∷ rs) bs c = refl
write_with-incoming (false ∷ rs) bs c = refl

write-incoming : (bs : Bytes) (c : Conn) → (write bs c).1.incoming ≡ c.incoming
unfolding write
write-incoming bs c = write_with-incoming c.write_results bs c

-- Another connection that has the same to read, and another factory.
reply-same :
    (w : World) (f : MsgFactory) (c : Conn)
    → c.incoming ≡ w.conn.incoming
    → SameButReply w (record w { factory = f; conn = c })
reply-same w f c e = record {
  dedup = refl;
  connections = refl;
  saved = refl;
  save_results = refl;
  published = refl;
  routed = refl;
  incoming = e;
}

send_built-same : (w : World) (r : Result Msg × MsgFactory) → SameButReply w (send_built w r)
send_built-same w (err e, f) = reply-same w f w.conn refl
send_built-same w (ok m, f) = elim (Bool-cases ((Frame.encode m).1.checksum == 0)) [
  | inl silent ↦ rw silent (reply-same w f w.conn refl)
  | inr sent ↦ rw sent (
      reply-same w f (write (Frame.encode m).0 w.conn).1 (write-incoming (Frame.encode m).0 w.conn))
]

pub send_ack-same : (now t id code : ℕ) (w : World) → SameButReply w (send_ack now t id code w)
unfolding send_ack
send_ack-same now t id code w =
    send_built-same w (new_msg w.factory now t (ack (record { msg_id = id; code = code })))

-- The store, the cache of uploads and what is left to read.
abbrev pub Stored : Type 0
Stored = List (Bytes × List Reading) × DedupCache × Bytes

abbrev pub stored : World → Stored
stored w = (w.saved, w.dedup, w.conn.incoming)

pub send_ack-stored : (now t id code : ℕ) (w : World) → stored (send_ack now t id code w) ≡ stored w
send_ack-stored now t id code w =
    let s = send_ack-same now t id code w in rw (s.saved, s.dedup, s.incoming)

-- What a refused gateway must not change.
abbrev pub Kept : Type 0
Kept = List (Bytes × List Reading) × DedupCache × Connections

abbrev pub kept : World → Kept
kept w = (w.saved, w.dedup, w.connections)

pub send_ack-kept : (now t id code : ℕ) (w : World) → kept (send_ack now t id code w) ≡ kept w
send_ack-kept now t id code w =
    let s = send_ack-same now t id code w in rw (s.saved, s.dedup, s.connections)

-- `sendAck` on a connection that takes its writes: it takes one id, and writes one frame, which the
-- peer reads back to the acknowledgement of that message and code under the type that was asked
-- for, where the checksum of the frame is not 0; where it is 0, nothing is written. Nothing else
-- changes.
pub send_ack_replies :
    (now t id code : ℕ) (w : World) (c : Conn) (rest : Bytes)
    → Carries t (ack (record { msg_id = id; code = code }))
    → id < 65536
    → code < 256
    → w.conn.write_results ≡ []
    → let p : AckPayload = record { msg_id = id; code = code } in
      let m : Msg = ack_msg now t p w.factory in
      let (frame, sent) = Frame.encode m in
      let w' : World = record w { factory = (next w.factory).1 } in
      ((sent.checksum ≡ 0) × (send_ack now t id code w ≡ w'))
      ⊎ ((sent.checksum ≢ 0)
          × (send_ack now t id code w
              ≡ record w' { conn = record w.conn { sent = w.conn.sent ++ (frame ∷ []) } })
          × (decode_frame (record c { incoming = frame ++ rest })
              ≡ (ok (received m), record c { incoming = rest }))
          × (parse_msg packet_registry (received m) ≡ ok (ack p)))
unfolding send_ack write
send_ack_replies now t id code w c rest carries hi hc hw =
    let p : AckPayload = record { msg_id = id; code = code } in
    let m : Msg = ack_msg now t p w.factory in
    let built = new_msg-ack now t p w.factory in
    let read =
      parse_msg-decode_frame-new_msg w.factory (next w.factory).1 now t (ack p) m rest
        (record c { incoming = (Frame.encode m).0 ++ rest }) (hi, hc) carries built (omega arith)
        refl in
    elim (Bool-cases ((Frame.encode m).1.checksum == 0)) [
      | inl silent ↦ inl ((==_iff _ 0).0 silent, rw (built, silent))
      | inr sent ↦
          inr (λ zero_sum. cc ((==_iff _ 0).1 zero_sum, sent), rw (built, sent, hw), read.0, read.1)
    ]
