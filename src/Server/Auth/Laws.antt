-- ===== src/Server/Auth/Laws.antt =====
-- Who is let in.
use lepg.Base.{
  ℕ, ◌<◌, ◌≤◌, ◌≡◌, ◌≢◌, ◌⊎◌, subst, refl, ap, ◌∙◌, arith, true, Bool-cases, inl, inr, List, ◌∷◌,
  ◌++◌, Option, none, some, Option-cases, Bytes, bytes_eq, bytes_eq_iff, length, length-append,
  ◌==◌, ==_iff,
}
use lepg.Errors.{Result, ok, err, token_mismatch, unknown_sn}
use lepg.MsgType
use lepg.Code
use lepg.Conn.{Conn, silent, is_timeout, without_deadline}
use lepg.Msg.Silent.{decode_frame-silent}
use lepg.Msg as Frame
use lepg.Msg.{Msg, decode_frame}
use lepg.Payload.Handshake.{HandshakePayload}
use lepg.Payload.Handshake.Laws.{encode-eq-ok_handshake}
use lepg.Packet.{
  Packable, handshake, ack, upload, heartbeat, notify, MsgFactory, new_msg, encode, parse_msg,
  packet_registry,
}
use lepg.Packet.Widths.{IsPackable}
use lepg.Packet.Transport.{new_msg-eq-ok, parse_msg-decode_frame-new_msg}
use lepg.Server.World.{ClientDef, World}
use lepg.Server.World.Ack.{kept, send_ack-kept}
use lepg.Server.Auth.{
  find_client, send_handshake_response, check_client, check_payload, check_handshake, check_read,
  authenticate_client,
}

-- The client that the configuration names first under the serial number has that token.
abbrev pub Known : List ClientDef → HandshakePayload → Type 0
Known clients hs = (d : ClientDef) × (find_client clients hs.sn ≡ some d) × (d.token ≡ hs.token)

module _ (now : ℕ) (id : ℕ) where
  check_client-eq-ok :
      (hs hs' : HandshakePayload) (o : Option ClientDef) (w w' : World)
      → check_client now id hs o w ≡ (ok hs', w')
      → (hs ≡ hs')
        × ((d : ClientDef) × (o ≡ some d) × (d.token ≡ hs.token))
        × (w' ≡ send_handshake_response now id Code.success w)
  check_client-eq-ok hs hs' none w w' e = absurd cc
  check_client-eq-ok hs hs' (some d) w w' e = elim (Bool-cases (bytes_eq d.token hs.token)) [
    | inl same ↦
        let e' = rw same at e in
        (ground (arith, e'), (d, refl, (bytes_eq_iff d.token hs.token).0 same), ground (arith, e'))
    | inr other ↦ absurd (cc (rw other at e))
  ]

  check_client-ok :
      (hs : HandshakePayload) (o : Option ClientDef) (d : ClientDef) (w : World)
      → o ≡ some d
      → d.token ≡ hs.token
      → check_client now id hs o w ≡ (ok hs, send_handshake_response now id Code.success w)
  check_client-ok hs o d w e t = rw (e, (bytes_eq_iff d.token hs.token).1 t)

encode-handshake-bytes :
    (hs : HandshakePayload) (bs : Bytes)
    → encode (handshake hs) ≡ ok bs
    → (length hs.sn ≤ 255)
      × (length hs.token ≤ 255)
      × (bs ≡ hs.firmware_version ∷ length hs.sn ∷ (hs.sn ++ (length hs.token ∷ hs.token)))
unfolding encode
encode-handshake-bytes hs bs e = encode-eq-ok_handshake hs bs e

-- What the server does with the frame that a gateway's `NewMsg` and `Encode` make of its handshake.
pub authenticate_client-new_msg :
    (clients : List ClientDef) (f f' : MsgFactory) (before now : ℕ) (hs : HandshakePayload)
    (m : Msg) (rest : Bytes) (w : World)
    → IsPackable (handshake hs)
    → new_msg f before MsgType.handshake (handshake hs) ≡ (ok m, f')
    → w.conn.incoming ≡ (Frame.encode m).0 ++ rest
    → authenticate_client clients now w
      ≡ some (
          check_client now m.msg_id hs
            (find_client clients hs.sn)
            (record w { conn = record w.conn { incoming = rest } }))
unfolding authenticate_client without_deadline
authenticate_client-new_msg clients f f' before now hs m rest w h e arrives =
    let (encoded, built, _) = new_msg-eq-ok f f' before MsgType.handshake (handshake hs) m e in
    let is_type : m.type ≡ MsgType.handshake = ap (λ (x : Msg). x.type) built in
    let (short_sn, short_token, bytes) = encode-handshake-bytes hs m.payload encoded in
    let small : length m.payload < 65536 =
      omega (arith, ap length bytes, length-append hs.sn (length hs.token ∷ hs.token)) in
    let (read, parsed) =
      parse_msg-decode_frame-new_msg f f' before MsgType.handshake (handshake hs) m rest w.conn h
        refl e small arrives in
    let is_handshake : (m.type == MsgType.handshake) ≡ true =
      (==_iff m.type MsgType.handshake).1 is_type in
    rw (read, is_handshake, parsed) refl

-- The server's answer to a handshake that a gateway built with `NewMsg` and encoded. If the first
-- client that is configured under the serial number has the token, the gateway is let in and gets
-- Ok; if it has another token, it is refused with BadToken, and if there is no such client with
-- BadSn. What follows the frame stays on the connection.
pub authenticate_client_decides :
    (clients : List ClientDef) (f f' : MsgFactory) (before now : ℕ) (hs : HandshakePayload)
    (m : Msg) (rest : Bytes) (w : World)
    → IsPackable (handshake hs)
    → new_msg f before MsgType.handshake (handshake hs) ≡ (ok m, f')
    → w.conn.incoming ≡ (Frame.encode m).0 ++ rest
    → let answer = authenticate_client clients now w in
      let reply : ℕ → World = λ code.
        send_handshake_response now m.msg_id code
          (record w { conn = record w.conn { incoming = rest } }) in
      (Known clients hs × (answer ≡ some (ok hs, reply Code.success)))
      ⊎ ((((d : ClientDef) × (find_client clients hs.sn ≡ some d) × (d.token ≢ hs.token))
            × (answer ≡ some (err (token_mismatch hs.sn), reply Code.bad_token)))
          ⊎ ((find_client clients hs.sn ≡ none)
              × (answer ≡ some (err (unknown_sn hs.sn), reply Code.bad_sn))))
authenticate_client_decides clients f f' before now hs m rest w h e arrives =
    let decided = authenticate_client-new_msg clients f f' before now hs m rest w h e arrives in
    elim (Option-cases (find_client clients hs.sn)) [
      | inl missing ↦ inr (inr (missing, decided ∙ rw missing))
      | inr (d, found) ↦ elim (Bool-cases (bytes_eq d.token hs.token)) [
        | inl same ↦
            inl ((d, found, (bytes_eq_iff d.token hs.token).0 same), decided ∙ rw (found, same))
        | inr other ↦ inr (
            inl (
              (d, found, λ q. absurd (cc ((bytes_eq_iff d.token hs.token).1 q, other))),
              decided ∙ rw (found, other),
            ))
      ]
    ]

check_payload-eq-ok :
    (clients : List ClientDef) (now id : ℕ) (r : Result Packable) (hs : HandshakePayload)
    (w w' : World)
    → check_payload clients now id r w ≡ (ok hs, w')
    → (r ≡ ok (handshake hs))
      × Known clients hs
      × (w' ≡ send_handshake_response now id Code.success w)
check_payload-eq-ok clients now id (err x) hs w w' e = absurd cc
check_payload-eq-ok clients now id (ok (handshake p)) hs w w' e =
    let (same, known, reply) = check_client-eq-ok now id p hs (find_client clients p.sn) w w' e in
    (ap (λ q. ok (handshake q)) same, subst (λ q. Known clients q) same known, reply)
check_payload-eq-ok clients now id (ok (ack p)) hs w w' e = absurd cc
check_payload-eq-ok clients now id (ok (upload p)) hs w w' e = absurd cc
check_payload-eq-ok clients now id (ok heartbeat) hs w w' e = absurd cc
check_payload-eq-ok clients now id (ok (notify p)) hs w w' e = absurd cc

check_handshake-eq-ok :
    (clients : List ClientDef) (now : ℕ) (r : Result Msg × Conn) (hs : HandshakePayload)
    (w w' : World)
    → check_handshake clients now w r ≡ (ok hs, w')
    → (m : Msg) × (c : Conn) × (r ≡ (ok m, c))
      × (m.type ≡ MsgType.handshake)
      × (parse_msg packet_registry m ≡ ok (handshake hs))
      × Known clients hs
      × (w' ≡ send_handshake_response now m.msg_id Code.success (record w { conn = c }))
check_handshake-eq-ok clients now (err x, c) hs w w' e = absurd cc
check_handshake-eq-ok clients now (ok m, c) hs w w' e =
    elim (Bool-cases (m.type == MsgType.handshake)) [
      | inl same ↦
          let (parsed, known, reply) =
            check_payload-eq-ok clients now m.msg_id (parse_msg packet_registry m) hs
              (record w { conn = c }) w' (rw same at e) in
          (m, c, refl, (==_iff m.type MsgType.handshake).0 same, parsed, known, reply)
      | inr other ↦ absurd (cc (rw other at e))
    ]

check_read-eq-ok :
    (clients : List ClientDef) (now : ℕ) (r : Result Msg × Conn) (hs : HandshakePayload)
    (w w' : World)
    → check_read clients now w (without_deadline r) ≡ some (ok hs, w')
    → (m : Msg) × (c : Conn) × (r ≡ (ok m, c))
      × (m.type ≡ MsgType.handshake)
      × (parse_msg packet_registry m ≡ ok (handshake hs))
      × Known clients hs
      × (w' ≡ send_handshake_response now m.msg_id Code.success (record w { conn = c }))
unfolding without_deadline
check_read-eq-ok clients now (ok m, c) hs w w' e =
    check_handshake-eq-ok clients now (ok m, c) hs w w' (cc)
check_read-eq-ok clients now (err x, c) hs w w' e = elim (Bool-cases (is_timeout x)) [
  | inl waits ↦ absurd (cc (rw waits at e))
  | inr other ↦ absurd (cc (rw other at e))
]

-- Whatever arrives, a gateway is let in only if a whole frame of type Handshake arrived, with a
-- payload that parses, whose token is that of the first client configured under its serial number;
-- it then gets Ok, and nothing else changes.
pub authenticate_client-eq-ok :
    (clients : List ClientDef) (now : ℕ) (hs : HandshakePayload) (w w' : World)
    → authenticate_client clients now w ≡ some (ok hs, w')
    → (m : Msg) × (c : Conn) × (decode_frame w.conn ≡ (ok m, c))
      × (m.type ≡ MsgType.handshake)
      × (parse_msg packet_registry m ≡ ok (handshake hs))
      × Known clients hs
      × (w' ≡ send_handshake_response now m.msg_id Code.success (record w { conn = c }))
unfolding authenticate_client
authenticate_client-eq-ok clients now hs w w' e =
    check_read-eq-ok clients now (decode_frame w.conn) hs w w' e

check_client-kept :
    (now id : ℕ) (hs : HandshakePayload) (o : Option ClientDef) (w : World)
    → kept (check_client now id hs o w).1 ≡ kept w
unfolding send_handshake_response
check_client-kept now id hs none w = send_ack-kept now MsgType.handshake_ack id Code.bad_sn w
check_client-kept now id hs (some d) w = elim (Bool-cases (bytes_eq d.token hs.token)) [
  | inl same ↦ rw same (send_ack-kept now MsgType.handshake_ack id Code.success w)
  | inr other ↦ rw other (send_ack-kept now MsgType.handshake_ack id Code.bad_token w)
]

check_payload-kept :
    (clients : List ClientDef) (now id : ℕ) (r : Result Packable) (w : World)
    → kept (check_payload clients now id r w).1 ≡ kept w
unfolding send_handshake_response
check_payload-kept clients now id (ok (handshake hs)) w =
    check_client-kept now id hs (find_client clients hs.sn) w
check_payload-kept clients now id (ok (ack p)) w =
    send_ack-kept now MsgType.handshake_ack id Code.failed w
check_payload-kept clients now id (ok (upload p)) w =
    send_ack-kept now MsgType.handshake_ack id Code.failed w
check_payload-kept clients now id (ok heartbeat) w =
    send_ack-kept now MsgType.handshake_ack id Code.failed w
check_payload-kept clients now id (ok (notify p)) w =
    send_ack-kept now MsgType.handshake_ack id Code.failed w
check_payload-kept clients now id (err e) w =
    send_ack-kept now MsgType.handshake_ack id Code.failed w

check_handshake-kept :
    (clients : List ClientDef) (now : ℕ) (r : Result Msg × Conn) (w : World)
    → kept (check_handshake clients now w r).1 ≡ kept w
unfolding send_handshake_response
check_handshake-kept clients now (err e, c) w = refl
check_handshake-kept clients now (ok m, c) w = elim (Bool-cases (m.type == MsgType.handshake)) [
  | inl same ↦ rw same (
      check_payload-kept clients now m.msg_id (parse_msg packet_registry m) (record w { conn = c }))
  | inr other ↦
      rw other
        (send_ack-kept now MsgType.handshake_ack m.msg_id Code.failed (record w { conn = c }))
]

check_read-kept :
    (clients : List ClientDef) (now : ℕ) (read : Option (Result Msg × Conn)) (w : World)
    (r : Result HandshakePayload × World)
    → check_read clients now w read ≡ some r
    → kept r.1 ≡ kept w
check_read-kept clients now none w r e = absurd cc
check_read-kept clients now (some read) w r e =
    let same : check_handshake clients now w read ≡ r = cc in
    rw (← same) (check_handshake-kept clients now read w)

check_read-none :
    (clients : List ClientDef) (now : ℕ) (w : World) (read : Option (Result Msg × Conn))
    → check_read clients now w read ≡ none
    → read ≡ none
check_read-none clients now w none e = refl
check_read-none clients now w (some read) e = absurd cc

-- The handshake changes neither the store, nor the cache of uploads, nor the connections.
pub authenticate_client-kept :
    (clients : List ClientDef) (now : ℕ) (w : World) (r : Result HandshakePayload × World)
    → authenticate_client clients now w ≡ some r
    → kept r.1 ≡ kept w
unfolding authenticate_client
authenticate_client-kept clients now w r e =
    check_read-kept clients now (without_deadline (decode_frame w.conn)) w r e

-- It never returns only where the peer stays silent.
pub authenticate_client-silent :
    (clients : List ClientDef) (now : ℕ) (w : World)
    → authenticate_client clients now w ≡ none
    → w.conn.ending ≡ silent
unfolding authenticate_client
authenticate_client-silent clients now w e =
    decode_frame-silent w.conn
      (check_read-none clients now w (without_deadline (decode_frame w.conn)) e)
