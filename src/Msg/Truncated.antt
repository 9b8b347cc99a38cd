-- ===== src/Msg/Truncated.antt =====
-- Streams that end inside a frame.
use lepg.Base.{
  ℕ, ◌+◌, ◌<◌, ◌≤◌, ◌≡◌, ap, sym, ◌∙◌, arith, [], ◌∷◌, ◌++◌, Bytes, length, take, drop, inl, inr,
  true,
}
use lepg.Base.{
  append_assoc, take-append, take_front, take-append-drop, length-append, length-drop, ltb,
  if◌then◌else◌, Bool-cases, ltb→lt, ◌==◌, ==_iff,
}
use lepg.Errors.{Error, err}
use lepg.Wire.{put_uint16, uint16_at}
use lepg.Conn.{Conn, short_read}
use lepg.Conn.Laws.{read_full_short, read_full_front}
use lepg.Crc.{cal_checksum}
use lepg.Msg.{Msg, IsWire, magic_number, header, encode, decode_body, decode_frame}
use lepg.Msg.RoundTrip.{length-header, magic_at, payload_len_at}

-- The error of a read that is cut in the header, or behind it.
abbrev pub cut_error : Conn → Error
cut_error c =
    if ltb (length c.incoming) 13
    then short_read c.ending c.incoming
    else short_read c.ending (drop 13 c.incoming)

-- The parts of a cut frame that is longer than a header.
module _ (m : Msg) (x : ℕ) (back : Bytes) (c : Conn)
    (e : (header m ++ m.payload) ++ put_uint16 (cal_checksum (header m ++ m.payload))
      ≡ c.incoming ++ (x ∷ back))
    (long : 13 ≤ length c.incoming) where
  header_first : take 13 c.incoming ≡ header m
  header_first =
      let sum : ℕ = cal_checksum (header m ++ m.payload) in
      sym (take-append 13 c.incoming (x ∷ back) long)
      ∙ ap (take 13) (sym e ∙ append_assoc (header m) m.payload (put_uint16 sum))
      ∙ take_front 13 (header m) (m.payload ++ put_uint16 sum) (sym (length-header m))

  header_split : c.incoming ≡ header m ++ drop 13 c.incoming
  header_split =
      sym (take-append-drop 13 c.incoming)
      ∙ ap (λ (t : Bytes). t ++ drop 13 c.incoming) header_first

  part_short : length (drop 13 c.incoming) < length m.payload + 2
  part_short =
      let sum : ℕ = cal_checksum (header m ++ m.payload) in
      omega (
        arith,
        ap length e,
        length-drop 13 c.incoming,
        length-append (header m ++ m.payload) (put_uint16 sum),
        length-append (header m) m.payload,
        length-append c.incoming (x ∷ back),
        length-header m,
      )

-- When the stream ends inside a frame that `Encode` wrote, before its last byte, `DecodeFrame`
-- returns no message: it takes all that there is and fails with io.EOF where the stream ends at
-- either of its two reads, with io.ErrUnexpectedEOF where it ends inside one, and with the timeout
-- where the peer is silent.
pub decode_frame_truncated :
    (m : Msg) (x : ℕ) (back : Bytes) (c : Conn)
    → IsWire m
    → length m.payload < 65536
    → (encode m).0 ≡ c.incoming ++ (x ∷ back)
    → decode_frame c ≡ (err (cut_error c), record c { incoming = [] })
unfolding encode decode_frame decode_body
decode_frame_truncated m x back c w h e = elim (Bool-cases (ltb (length c.incoming) 13)) [
  | inl short ↦ rw (short, read_full_short 13 c (ltb→lt _ 13 short))
  | inr long ↦
      let enough : 13 ≤ length c.incoming = ground arith in
      let header_read =
        read_full_front 13 (header m) (drop 13 c.incoming) c (sym (length-header m))
          (header_split m x back c e enough) in
      let is_magic : (uint16_at (header m) 0 == magic_number) ≡ true =
        (==_iff _ magic_number).1 (magic_at m w ∙ w.magic) in
      let len : uint16_at (header m) 7 ≡ length m.payload = omega (arith, payload_len_at m w) in
      let body_read =
        read_full_short (length m.payload + 2) (record c { incoming = drop 13 c.incoming })
          (part_short m x back c e enough) in
      rw (long, header_read, is_magic, len, body_read)
]
