-- ===== src/Msg/Corrupt.antt =====
-- Frames that were changed on the way.
use lepg.Base.{
  arith, ℕ, ◌<◌, ◌≡◌, ◌≢◌, refl, ap, sym, ◌∙◌, [], ◌∷◌, ◌++◌, Bytes, IsByte, IsBytes, length,
}
use lepg.Base.{All-append, All-split, ne→not_==}
use lepg.Errors.{err, checksum_mismatch}
use lepg.Wire.{put_uint16}
use lepg.Conn.{Conn}
use lepg.Crc.{cal_checksum}
use lepg.Crc.Detect.{cal_checksum-own, cal_checksum_burst}
use lepg.Msg as Frame
use lepg.Msg.{Msg, IsWire, header, decode_frame}
use lepg.Msg.RoundTrip.{header-IsBytes, decode_frame-header}

covered-IsBytes : (m : Msg) → IsWire m → IsBytes (header m ++ m.payload)
covered-IsBytes m w = All-append IsByte (header m) m.payload (header-IsBytes m w) w.payload

put_uint16-IsBytes : (n : ℕ) → IsBytes (put_uint16 n)
put_uint16-IsBytes n = omega arith

-- A frame whose header and payload do not have the checksum that it carries is refused with the
-- checksum error, and the stream stands behind the frame.
pub decode_frame_wrong_sum :
    (m : Msg) (sum : ℕ) (rest : Bytes) (c : Conn)
    → IsWire m
    → length m.payload < 65536
    → sum < 65536
    → cal_checksum (header m ++ m.payload) ≢ sum
    → c.incoming ≡ header m ++ ((m.payload ++ put_uint16 sum) ++ rest)
    → decode_frame c ≡ (err checksum_mismatch, record c { incoming = rest })
decode_frame_wrong_sum m sum rest c w h hs ne e =
    decode_frame-header m m.payload sum rest c w h refl hs e ∙ rw (ne→not_== _ sum ne)

-- The frame that `Encode` wrote with two adjacent bytes changed anywhere in it, or one of them, such
-- that it still is a frame with some checksum field of a message with as long a payload (the magic
-- number and the length are intact), is refused with the checksum error, and the stream stands behind
-- the frame.
pub decode_frame_corrupt :
    (m m' : Msg) (sum : ℕ) (xs ys : Bytes) (a b a' b' : ℕ) (rest : Bytes) (c : Conn)
    → IsWire m
    → IsWire m'
    → length m'.payload < 65536
    → sum < 65536
    → (Frame.encode m).0 ≡ xs ++ (a ∷ b ∷ ys)
    → (header m' ++ m'.payload) ++ put_uint16 sum ≡ xs ++ (a' ∷ b' ∷ ys)
    → (a ∷ b ∷ []) ≢ (a' ∷ b' ∷ [])
    → c.incoming ≡ header m' ++ ((m'.payload ++ put_uint16 sum) ++ rest)
    → decode_frame c ≡ (err checksum_mismatch, record c { incoming = rest })
unfolding Frame.encode
decode_frame_corrupt m m' sum xs ys a b a' b' rest c w w' h hs e e' ne eq =
    let covered : Bytes = header m ++ m.payload in
    let covered' : Bytes = header m' ++ m'.payload in
    let frame_bytes : IsBytes (xs ++ (a ∷ b ∷ ys)) = rw (← e) (
      All-append IsByte covered (put_uint16 (cal_checksum covered)) (covered-IsBytes m w)
        (put_uint16-IsBytes (cal_checksum covered))) in
    let changed_bytes : IsBytes (xs ++ (a' ∷ b' ∷ ys)) = rw (← e') (
      All-append IsByte covered' (put_uint16 sum) (covered-IsBytes m' w')
        (put_uint16-IsBytes sum)) in
    let (hx, (ha, (hb, hy))) = All-split IsByte xs (a ∷ b ∷ ys) frame_bytes in
    let (_, (ha', (hb', _))) = All-split IsByte xs (a' ∷ b' ∷ ys) changed_bytes in
    let differs = cal_checksum_burst xs ys a b a' b' hx hy (ha, (hb, tt)) (ha', (hb', tt)) ne in
    decode_frame_wrong_sum m' sum rest c w' h hs
      (λ (p : cal_checksum covered' ≡ sum).
        let zero' : cal_checksum (covered' ++ put_uint16 sum) ≡ 0 =
          ap (λ (t : ℕ). cal_checksum (covered' ++ put_uint16 t)) (sym p)
          ∙ cal_checksum-own covered' (covered-IsBytes m' w') in
        differs (
          ap cal_checksum (sym e)
          ∙ cal_checksum-own covered (covered-IsBytes m w)
          ∙ sym zero'
          ∙ ap cal_checksum e'))
      eq
