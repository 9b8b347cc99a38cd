-- ===== src/Client/Handshake/Laws.antt =====
-- The gateway at the server's answer.
use lepg.Base.{
  ℕ, ◌<◌, ◌≡◌, refl, arith, Option, none, some, Bool, true, false, List, sym, ◌∙◌, [], ◌∷◌, ◌++◌,
  Bytes, inl, ◌==◌, if◌then◌else◌,
}
use lepg.Errors.{Result, ok, err, handshake_rejected}
use lepg.MsgType
use lepg.Code
use lepg.Conn.{Conn, Ending, silent, write, write_with, without_deadline}
use lepg.Msg.Silent.{decode_frame-silent}
use lepg.Msg as Frame
use lepg.Msg.{Msg, decode_frame}
use lepg.Payload.Ack.{AckPayload}
use lepg.Packet.{handshake, ack, MsgFactory, next, new_msg}
use lepg.Packet.Transport.{parse_msg-decode_frame-new_msg}
use lepg.Server.World.Ack.{ack_msg, new_msg-ack}
use lepg.Client.Handshake.{Link, check_read, after_send, send_handshake, perform_handshake}

-- Where the server's answer is an acknowledgement that it built as one of the handshake, the gateway
-- has written the frame of its handshake and nothing else, has read the answer and nothing behind
-- it, and succeeds exactly if the code is Ok; with any other code it is rejected. The connection
-- takes what is written.
pub perform_handshake_answered :
    (now later : ℕ) (sn token : Bytes) (link : Link) (m : Msg) (f : MsgFactory)
    (server : MsgFactory) (p : AckPayload) (rest : Bytes)
    → new_msg link.factory now MsgType.handshake
        (handshake (record { firmware_version = 1; sn = sn; token = token }))
      ≡ (ok m, f)
    → p.msg_id < 65536
    → p.code < 256
    → link.conn.write_results ≡ []
    → link.conn.incoming ≡ (Frame.encode (ack_msg later MsgType.handshake_ack p server)).0 ++ rest
    → perform_handshake now sn token link
      ≡ some (
        (if p.code == Code.success then ok tt else err handshake_rejected),
        record {
          conn = record link.conn {
            incoming = rest;
            sent = link.conn.sent ++ ((Frame.encode m).0 ∷ []);
          };
          factory = f;
        },
      )
unfolding perform_handshake write without_deadline
perform_handshake_answered now later sn token link m f server p rest e hi hc writes answer =
    let c : Conn = record link.conn {
      sent = link.conn.sent ++ ((Frame.encode m).0 ∷ []);
      write_results = [];
    } in
    let a : Msg = ack_msg later MsgType.handshake_ack p server in
    let built = new_msg-ack later MsgType.handshake_ack p server in
    let (read, parsed) =
      parse_msg-decode_frame-new_msg server (next server).1 later MsgType.handshake_ack (ack p) a
        rest c (hi, hc) (inl refl) built (omega arith) answer in
    rw (e, writes, read, parsed)

check_read-none :
    (f : MsgFactory) (read : Option (Result Msg × Conn)) → check_read f read ≡ none → read ≡ none
check_read-none f none e = refl
check_read-none f (some read) e = absurd cc

after_write-silent :
    (f : MsgFactory) (g : Ending) (w : Result (Unit {0}) × Conn)
    → w.1.ending ≡ g
    → after_send f w ≡ none
    → g ≡ silent
after_write-silent f g (err x, c) same e = absurd cc
after_write-silent f g (ok _, c) same e =
    sym same ∙ decode_frame-silent c (check_read-none f (without_deadline (decode_frame c)) e)

write_with-ending :
    (results : List Bool) (bs : Bytes) (c : Conn) → (write_with results bs c).1.ending ≡ c.ending
write_with-ending [] bs c = refl
write_with-ending (true ∷ results) bs c = refl
write_with-ending (false ∷ results) bs c = refl

send_handshake-silent :
    (c : Conn) (r : Result Msg × MsgFactory) → send_handshake c r ≡ none → c.ending ≡ silent
unfolding write
send_handshake-silent c (err x, f) e = absurd cc
send_handshake-silent c (ok m, f) e =
    after_write-silent f c.ending (write_with c.write_results (Frame.encode m).0 c)
      (write_with-ending c.write_results (Frame.encode m).0 c) e

-- The gateway's handshake never returns only where the server stays silent.
pub perform_handshake-silent :
    (now : ℕ) (sn token : Bytes) (link : Link)
    → perform_handshake now sn token link ≡ none
    → link.conn.ending ≡ silent
unfolding perform_handshake
perform_handshake-silent now sn token link e =
    send_handshake-silent link.conn
      (new_msg link.factory now MsgType.handshake
        (handshake (record { firmware_version = 1; sn = sn; token = token })))
      e
