-- ===== src/Msg/Accepted.antt =====
-- What `DecodeFrame` accepts, on any stream.
use lepg.Base.{
  ℕ, zero, suc, ◌+◌, ◌<◌, ◌≡◌, ap, sym, ◌∙◌, arith, [], ◌∷◌, ◌++◌, Bytes, IsByte, IsBytes, length,
  take, drop, inl, inr,
}
use lepg.Base.{
  All-take, All-split, append_assoc, take-append-drop, length-take, Bool-cases, ◌==◌, ==_iff,
}
use lepg.Errors.{ok}
use lepg.Wire.{put_uint16, at, uint16_at, uint32_at}
use lepg.Wire.Laws.{byte_at}
use lepg.Conn.{Conn, read_full}
use lepg.Conn.Laws.{read_full-eq-ok, continue-eq-ok}
use lepg.Crc.{cal_checksum}
use lepg.Msg.{Msg, IsWire, magic_number, header, encode, check_frame, decode_body, decode_frame}
use lepg.Msg.RoundTrip.{received}

-- The header that a message read from 13 bytes has is those bytes.
header_of_fields :
    (h : Bytes) (m : Msg)
    → length h ≡ 13
    → IsBytes h
    → m.magic ≡ uint16_at h 0
    → m.version ≡ at h 2
    → m.flags ≡ at h 3
    → m.type ≡ at h 4
    → m.msg_id ≡ uint16_at h 5
    → length m.payload ≡ uint16_at h 7
    → m.timestamp ≡ uint32_at h 9
    → header m ≡ h
unfolding header
header_of_fields (a ∷ b ∷ c ∷ d ∷ e ∷ f ∷ g ∷ i ∷ j ∷ k ∷ l ∷ n ∷ o ∷ []) m len hb h0 h2 h3 h4 h5 h7
      h9 =
    ground arith
header_of_fields _ m len hb h0 h2 h3 h4 h5 h7 h9 = absurd (omega arith)

-- The last two bytes are the integer that they hold.
put_uint16-uint16_at :
    (n : ℕ) (r : Bytes) → length r ≡ n + 2 → IsBytes r → put_uint16 (uint16_at r n) ≡ drop n r
put_uint16-uint16_at zero (a ∷ b ∷ []) e h = ground arith
put_uint16-uint16_at (suc n) (x ∷ r) e h =
    let next : suc n + 1 ≡ suc (n + 1) = omega arith in
    rw next (put_uint16-uint16_at n r (omega arith) h.1)
put_uint16-uint16_at zero _ e h = absurd (omega arith)
put_uint16-uint16_at (suc n) [] e h = absurd (omega arith)

-- What `check_frame` accepts.
module _ (h r : Bytes) (c d : Conn) (m : Msg) (len : length h ≡ 13) (hb : IsBytes h)
    (rb : IsBytes r) (lr : length r ≡ uint16_at h 7 + 2) (is_magic : uint16_at h 0 ≡ magic_number)
    (e : check_frame h r c ≡ (ok m, d)) where
  fields :
      (m.payload ≡ take (uint16_at h 7) r)
      × (m.payload_len ≡ uint16_at h 7)
      × (m.magic ≡ uint16_at h 0)
      × (m.version ≡ at h 2)
      × (m.flags ≡ at h 3)
      × (m.type ≡ at h 4)
      × (m.msg_id ≡ uint16_at h 5)
      × (m.timestamp ≡ uint32_at h 9)
      × (m.checksum ≡ uint16_at r (uint16_at h 7))
      × (cal_checksum (h ++ take (uint16_at h 7) r) ≡ uint16_at r (uint16_at h 7))
      × (d ≡ c)
  unfolding check_frame
  fields = ground arith

  payload_length : length m.payload ≡ uint16_at h 7
  payload_length =
      let (p, _, _, _, _, _, _, _, _, _, _) = fields in
      omega (arith, ap length p, length-take (uint16_at h 7) r)

  header_bytes : header m ≡ h
  header_bytes =
      let (_, _, f0, f2, f3, f4, f5, f9, _, _, _) = fields in
      header_of_fields h m len hb f0 f2 f3 f4 f5 payload_length f9

  rest_bytes : m.payload ++ put_uint16 (cal_checksum (header m ++ m.payload)) ≡ r
  rest_bytes =
      let n : ℕ = uint16_at h 7 in
      let (p, _, _, _, _, _, _, _, _, sum, _) = fields in
      let sum' : cal_checksum (header m ++ m.payload) ≡ uint16_at r n = rw (header_bytes, p) sum in
      rw (sum', p) (ap (◌++◌ (take n r)) (put_uint16-uint16_at n r lr rb) ∙ take-append-drop n r)

  same_message : m ≡ received m
  same_message =
      let (p, f7, _, _, _, _, _, _, fs, sum, _) = fields in
      let sum' : m.checksum ≡ cal_checksum (header m ++ m.payload) =
        rw (header_bytes, p) (fs ∙ sym sum) in
      let len' : m.payload_len ≡ length m.payload = f7 ∙ sym payload_length in
      λ i. record m { payload_len = len' i; checksum = sum' i }

  checked : IsWire m × (m ≡ received m) × (length m.payload < 65536)
  checked =
      let (p, f7, f0, f2, f3, f4, f5, f9, fs, sum, _) = fields in
      let b = λ (i : ℕ). byte_at h i hb in
      (
        record {
          magic = f0 ∙ is_magic;
          version = omega (arith, f2, b 2);
          flags = omega (arith, f3, b 3);
          type = omega (arith, f4, b 4);
          msg_id = omega (arith, f5, b 5, b 6);
          timestamp = omega (arith, f9, b 9, b 10, b 11, b 12);
          payload = rw p (All-take IsByte (uint16_at h 7) r rb);
        },
        same_message,
        omega (arith, payload_length, b 7, b 8),
      )

-- The second half of `DecodeFrame`, behind a header with the magic number.
decode_body-eq-ok :
    (h : Bytes) (c d : Conn) (m : Msg)
    → length h ≡ 13
    → IsBytes h
    → IsBytes c.incoming
    → uint16_at h 0 ≡ magic_number
    → decode_body h c ≡ (ok m, d)
    → (h ++ c.incoming ≡ (encode m).0 ++ d.incoming)
      × (d ≡ record c { incoming = d.incoming })
      × IsWire m
      × (m ≡ received m)
      × (length m.payload < 65536)
unfolding encode decode_body
decode_body-eq-ok h c d m len hb cb is_magic e =
    let n : ℕ = uint16_at h 7 in
    let (r, c', read, checked_as) = continue-eq-ok (read_full (n + 2) c) (check_frame h) e in
    let (front, lr, same) = read_full-eq-ok (n + 2) c c' r read in
    let (rb, _) = All-split IsByte r c'.incoming (rw front at cb) in
    let (wire, whole, fits) = checked h r c' d m len hb rb lr is_magic checked_as in
    let (_, _, _, _, _, _, _, _, _, _, left) = fields h r c' d m len hb rb lr is_magic checked_as in
    let bytes = rest_bytes h r c' d m len hb rb lr is_magic checked_as in
    let sum : Bytes = put_uint16 (cal_checksum (header m ++ m.payload)) in
    let stream : h ++ c.incoming ≡ ((h ++ m.payload) ++ sum) ++ c'.incoming =
      ap (◌++◌ h) (front ∙ ap (λ (t : Bytes). t ++ c'.incoming) (sym bytes)) ∙ simp append_assoc in
    let whole_header = header_bytes h r c' d m len hb rb lr is_magic checked_as in
    (
      stream
          ∙ ap (λ (t : Bytes). ((t ++ m.payload) ++ sum) ++ c'.incoming) (sym whole_header)
          ∙ ap (λ (t : Conn). (encode m).0 ++ t.incoming) (sym left),
      rw left same,
      wire,
      whole,
      fits,
    )

-- `DecodeFrame` accepts a message, on a stream of bytes, only if the stream begins with the very
-- frame that `Encode` writes for that message, and leaves what follows it; the message's fields fit
-- their widths, its payload is shorter than 65536 bytes, and its length and checksum are the right
-- ones.
pub decode_frame-eq-ok :
    (c d : Conn) (m : Msg)
    → IsBytes c.incoming
    → decode_frame c ≡ (ok m, d)
    → (c.incoming ≡ (encode m).0 ++ d.incoming)
      × (d ≡ record c { incoming = d.incoming })
      × IsWire m
      × (m ≡ received m)
      × (length m.payload < 65536)
unfolding decode_frame
decode_frame-eq-ok c d m hb e =
    let (h, c', read, then_body) = continue-eq-ok (read_full 13 c) _ e in
    let (front, len, same) = read_full-eq-ok 13 c c' h read in
    let (hb', cb) = All-split IsByte h c'.incoming (rw front at hb) in
    elim (Bool-cases (uint16_at h 0 == magic_number)) [
      | inl is_magic ↦
          let (stream, left, wire, whole, fits) =
            decode_body-eq-ok h c' d m len hb' cb ((==_iff _ _).0 is_magic)
              (rw is_magic at then_body) in
          (
            front ∙ stream,
            left ∙ ap (λ (t : Conn). record t { incoming = d.incoming }) same,
            wire,
            whole,
            fits,
          )
      | inr other ↦ absurd (cc (rw other at then_body))
    ]
