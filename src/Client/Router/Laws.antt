-- ===== src/Client/Router/Laws.antt =====
-- The read loop comes to its end, and gives each channel its own messages.
use lepg.Base.{ℕ, zero, suc, ◌<◌, ◌≡◌, some, IsBytes, length, arith, refl, inl, inr}
use lepg.Errors.{Error}
use lepg.Conn.{Conn}
use lepg.Msg.{decode_frame}
use lepg.Packet.{parse_msg, packet_registry}
use lepg.Server.Session.Total.{frame-shorter, read-cases}
use lepg.Client.Router.{MsgRouter, deliver, read_loop}

read_loop_bound :
    (fuel : ℕ) (c : Conn) (r : MsgRouter)
    → IsBytes c.incoming
    → length c.incoming < fuel
    → (out : Error × Conn × MsgRouter) × (read_loop fuel c r ≡ some out)
unfolding read_loop
read_loop_bound zero c r bytes h = absurd (omega arith)
read_loop_bound (suc fuel) c r bytes h = elim (read-cases (decode_frame c)) [
  | inl (e, d, failed) ↦ ((e, d, r), rw failed refl)
  | inr (m, d, read) ↦
      let (left, shorter) = frame-shorter c d m bytes read in
      let (out, same) =
        read_loop_bound fuel d (deliver m.type (parse_msg packet_registry m) r) left
          (omega arith) in
      (out, rw read same)
]

-- On every stream of bytes the read loop ends with an error of a read, with fuel for one round more
-- than the stream has bytes: the session always learns that its connection is dead.
pub read_loop_total :
    (c : Conn) (r : MsgRouter)
    → IsBytes c.incoming
    → (out : Error × Conn × MsgRouter) × (read_loop (suc (length c.incoming)) c r ≡ some out)
read_loop_total c r bytes = read_loop_bound (suc (length c.incoming)) c r bytes (omega arith)
