-- ===== src/Server/Session/Total.antt =====
-- A connection comes to its end, and what it has done by then.
use lepg.Base.{
  ℕ, zero, suc, ◌+◌, ◌<◌, ◌≡◌, ◌⊎◌, refl, sym, ap, ◌∙◌, subst, arith, Bool, inl, inr, List, [],
  ◌++◌, append-nil, All-split, Option, none, some, Bytes, IsByte, IsBytes, length, length-append,
  find, find-delete, bytes_eq_refl,
}
use lepg.Errors.{Error, Result, ok, err}
use lepg.MsgType
use lepg.Code
use lepg.Conn.{Conn, silent}
use lepg.Msg as Frame
use lepg.Wire.{put_uint16}
use lepg.Crc.{cal_checksum}
use lepg.Msg.{Msg, decode_frame, header}
use lepg.Msg.Accepted.{decode_frame-eq-ok}
use lepg.Reading.{Reading}
use lepg.Payload.Handshake.{HandshakePayload}
use lepg.Packet.{new_msg_factory}
use lepg.Server.Dedup.Synced.{IsSynced}
use lepg.Server.Connections.{Connections, register_connection, remove_connection}
use lepg.Server.World.{ClientDef, World}
use lepg.Server.World.Ack.{Stored, send_ack-stored, Kept, kept}
use lepg.Server.Auth.{authenticate_client, send_handshake_response}
use lepg.Server.Auth.Laws.{
  Known, authenticate_client-eq-ok, authenticate_client-kept, authenticate_client-silent,
}
use lepg.Server.Session.{
  Handled, blocked, returned, handle_message, message_loop, new_connection, after_handshake,
  handle_connection,
}
use lepg.Server.Session.Laws.{Of, Follows, Follows-trans, handle_message-Follows}

-- A frame that was read took bytes off the stream.
pub frame-shorter :
    (c d : Conn) (m : Msg)
    → IsBytes c.incoming
    → decode_frame c ≡ (ok m, d)
    → IsBytes d.incoming × (length d.incoming < length c.incoming)
unfolding Frame.encode
frame-shorter c d m h e =
    let (stream, _, _, _, _) = decode_frame-eq-ok c d m h e in
    let frame : Bytes = (Frame.encode m).0 in
    let (_, left) = All-split IsByte frame d.incoming (rw stream at h) in
    (
      left,
      omega (
        arith,
        ap length stream,
        length-append frame d.incoming,
        length-append (header m ++ m.payload) (put_uint16 (cal_checksum (header m ++ m.payload))),
      ),
    )

pub read-cases :
    (r : Result Msg × Conn)
    → ((x : Error) × (c : Conn) × (r ≡ (err x, c))) ⊎ ((m : Msg) × (c : Conn) × (r ≡ (ok m, c)))
read-cases (err x, c) = inl (x, c, refl)
read-cases (ok m, c) = inr (m, c, refl)

pub removed : (sn : Bytes) (m : Connections) → find sn (remove_connection sn m) ≡ none
unfolding remove_connection
removed sn m = find-delete sn sn m ∙ rw (bytes_eq_refl sn)

-- The answer to a handshake reads nothing.
reply_incoming :
    (w : World) (c : Conn) (m : Msg) (w' : World) (now : ℕ)
    → w' ≡ send_handshake_response now m.msg_id Code.success (record w { conn = c })
    → w'.conn.incoming ≡ c.incoming
unfolding send_handshake_response
reply_incoming w c m w' now e =
    ap (λ (x : World). x.conn.incoming) e
    ∙ ap (λ (x : Stored). x.2)
        (send_ack-stored now MsgType.handshake_ack m.msg_id Code.success (record w { conn = c }))

Follows-conn :
    (sn : Bytes) (w : World) (c : Conn) → IsSynced w.dedup → Follows sn w (record w { conn = c })
Follows-conn sn w c s = record {
  rows = [];
  saved = sym (append-nil w.saved);
  of_gateway = tt;
  synced = s;
}

module _ (sha256 : Bytes → Bytes) (serialize_readings : List Reading → Option Bytes)
    (has_router : Bool) (now : ℕ → ℕ) where
  -- The loop ends when the stream does, on fuel for its bytes.
  pub message_loop-total :
      (fuel count : ℕ) (sn : Bytes) (w : World)
      → IsBytes w.conn.incoming
      → length w.conn.incoming < fuel
      → IsSynced w.dedup
      → (w' : World) × (message_loop sha256 serialize_readings has_router now fuel count sn w
          ≡ some w')
        × Follows sn w w'
  unfolding message_loop
  message_loop-total zero count sn w h enough s = absurd (omega arith)
  message_loop-total (suc fuel) count sn w h enough s = elim (read-cases (decode_frame w.conn)) [
    | inl (x, c, e) ↦ (record w { conn = c }, rw e, Follows-conn sn w c s)
    | inr (m, c, e) ↦
        let read : World = record w { conn = c } in
        let handled : World =
          handle_message sha256 serialize_readings has_router now (count + 1) sn m read in
        let (bytes, shorter) = frame-shorter w.conn c m h e in
        let (follows, same) =
          handle_message-Follows sha256 serialize_readings has_router now (count + 1) sn m read s in
        let (w', ends, then_follows) =
          message_loop-total fuel (count + 1) sn handled (rw same bytes)
            (omega (arith, ap length same)) follows.synced in
        (
          w',
          rw e ends,
          Follows-trans sn w read w' (Follows-conn sn w c s)
              (Follows-trans sn read handled w' follows then_follows),
        )
  ]

  -- What follows the handshake, with the entry that was registered taken away at the end.
  after_handshake-total :
      (fuel : ℕ) (remote_addr uuid : Bytes) (hs : HandshakePayload) (w : World)
      → IsBytes w.conn.incoming
      → length w.conn.incoming < fuel
      → IsSynced w.dedup
      → (w' : World) × (after_handshake sha256 serialize_readings has_router now fuel remote_addr
            uuid
            (some (ok hs, w))
          ≡ some (returned w'))
        × Follows hs.sn w w'
        × (find hs.sn w'.connections ≡ none)
  after_handshake-total fuel remote_addr uuid hs w h enough s =
      let registered : World = record w {
        connections =
            register_connection
              (new_connection sha256 serialize_readings has_router now hs.sn remote_addr uuid)
              w.connections;
      } in
      let (w', ends, f) = message_loop-total fuel 1 hs.sn registered h enough s in
      (
        record w' { connections = remove_connection hs.sn w'.connections },
        rw ends,
        record { rows = f.rows; saved = f.saved; of_gateway = f.of_gateway; synced = f.synced },
        removed hs.sn w'.connections,
      )

  -- What a connection comes to, by what the handshake came to.
  abbrev pub IsEnd :
      List ClientDef → World → Option (Result HandshakePayload × World) → Handled → Type 0
  IsEnd clients w none out = (out ≡ blocked) × (w.conn.ending ≡ silent)
  IsEnd clients w (some (err x, w₁)) out = (out ≡ returned w₁) × (kept w₁ ≡ kept w)
  IsEnd clients w (some (ok hs, w₁)) out =
      Known clients hs
      × ((w' : World) × (out ≡ returned w')
          × IsSynced w'.dedup
          × (find hs.sn w'.connections ≡ none)
          × ((rows : List (Bytes × List Reading)) × (w'.saved ≡ w.saved ++ rows) × Of hs.sn rows))

  handshake-ends :
      (clients : List ClientDef) (fuel : ℕ) (remote_addr uuid : Bytes) (w : World)
      (a : Option (Result HandshakePayload × World))
      → IsBytes w.conn.incoming
      → length w.conn.incoming < fuel
      → IsSynced w.dedup
      → authenticate_client clients (now 0) (record w { factory = new_msg_factory }) ≡ a
      → (out : Handled) × (after_handshake sha256 serialize_readings has_router now fuel remote_addr
            uuid a
          ≡ some out)
        × IsEnd clients w a out
  handshake-ends clients fuel remote_addr uuid w none h enough s e =
      let start : World = record w { factory = new_msg_factory } in
      (blocked, refl, (refl, authenticate_client-silent clients (now 0) start e))
  handshake-ends clients fuel remote_addr uuid w (some (err x, w₁)) h enough s e =
      let start : World = record w { factory = new_msg_factory } in
      (returned w₁, refl, (refl, authenticate_client-kept clients (now 0) start (err x, w₁) e))
  handshake-ends clients fuel remote_addr uuid w (some (ok hs, w₁)) h enough s e =
      let start : World = record w { factory = new_msg_factory } in
      let same : kept w₁ ≡ kept w = authenticate_client-kept clients (now 0) start (ok hs, w₁) e in
      let (m, c, read, _, _, known, reply) =
        authenticate_client-eq-ok clients (now 0) hs start w₁ e in
      let (bytes, shorter) = frame-shorter w.conn c m h read in
      let incoming : w₁.conn.incoming ≡ c.incoming = reply_incoming start c m w₁ (now 0) reply in
      let synced : IsSynced w₁.dedup = subst IsSynced (sym (ap (λ (k : Kept). k.1) same)) s in
      let (w', ends, f, gone) =
        after_handshake-total fuel remote_addr uuid hs w₁ (rw incoming bytes)
          (omega (arith, ap length incoming)) synced in
      (
        returned w',
        ends,
        (
          known,
          (
            w',
            refl,
            f.synced,
            gone,
            (f.rows, f.saved ∙ ap (λ (k : Kept). k.0 ++ f.rows) same, f.of_gateway),
          ),
        ),
      )

  -- `HandleConnection` on any stream of bytes, with the cache of uploads in order, never comes to the
  -- end of its fuel, which is more than the stream's bytes, and ends as the handshake decides. It never
  -- returns only where the handshake does not, and then the gateway is silent. It returns with the
  -- store, the cache and the connections as they were where the handshake failed. Where it succeeded the
  -- configuration knows the gateway with its token; the connection then comes to its end with the cache
  -- in order, all rows that the store has got are under the gateway's serial number, and its connection
  -- is no longer registered.
  pub handle_connection_total :
      (clients : List ClientDef) (fuel : ℕ) (remote_addr uuid : Bytes) (w : World)
      → IsBytes w.conn.incoming
      → length w.conn.incoming < fuel
      → IsSynced w.dedup
      → (out : Handled) × (handle_connection sha256 serialize_readings has_router now clients fuel
            remote_addr uuid w
          ≡ some out)
        × IsEnd clients w
            (authenticate_client clients (now 0) (record w { factory = new_msg_factory }))
            out
  unfolding handle_connection
  handle_connection_total clients fuel remote_addr uuid w h enough s =
      handshake-ends clients fuel remote_addr uuid w
        (authenticate_client clients (now 0) (record w { factory = new_msg_factory })) h enough s
        refl
