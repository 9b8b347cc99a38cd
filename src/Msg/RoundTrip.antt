-- ===== src/Msg/RoundTrip.antt =====
-- `DecodeFrame` after `Encode`.
use lepg.Base.{ℕ, ◌+◌, ◌%◌, ◌<◌, ◌≡◌, refl, ap, sym, ◌∙◌, arith, [], ◌++◌, append_assoc}
use lepg.Base.{
  Bytes, IsBytes, length, take_front, length-append, All-append, ==_refl, ==_iff, true, ◌==◌,
  IsByte, if◌then◌else◌,
}
use lepg.Errors.{ok, err, checksum_mismatch}
use lepg.Wire.{put_uint16, at, uint16_at, uint32_at}
use lepg.Wire.Laws.{uint16_at_front}
use lepg.Conn.{Conn}
use lepg.Conn.Laws.{read_full_front}
use lepg.Crc.{cal_checksum}
use lepg.Crc.Detect.{cal_checksum-lt}
use lepg.Msg.{Msg, IsWire, magic_number, header, encode, check_frame, decode_body, decode_frame}

pub header-IsBytes : (m : Msg) → IsWire m → IsBytes (header m)
unfolding header
header-IsBytes m w = ground arith

pub length-header : (m : Msg) → length (header m) ≡ 13
unfolding header
length-header m = refl

-- The fields stand in the header where `DecodeFrame` reads them.
module _ (m : Msg) (w : IsWire m) where
  pub magic_at : uint16_at (header m) 0 ≡ m.magic
  unfolding header
  magic_at = omega arith

  pub version_at : at (header m) 2 ≡ m.version
  unfolding header
  version_at = refl

  pub flags_at : at (header m) 3 ≡ m.flags
  unfolding header
  flags_at = refl

  pub type_at : at (header m) 4 ≡ m.type
  unfolding header
  type_at = refl

  pub msg_id_at : uint16_at (header m) 5 ≡ m.msg_id
  unfolding header
  msg_id_at = omega arith

  pub payload_len_at : uint16_at (header m) 7 ≡ length m.payload % 65536
  unfolding header
  payload_len_at = omega arith

  pub timestamp_at : uint32_at (header m) 9 ≡ m.timestamp
  unfolding header
  timestamp_at = omega arith

-- The rest of a frame: accepted if its checksum is that of the header and the payload.
check_frame-header :
    (m : Msg) (payload : Bytes) (sum : ℕ) (c : Conn)
    → IsWire m
    → length m.payload < 65536
    → length payload ≡ length m.payload
    → sum < 65536
    → check_frame (header m) (payload ++ put_uint16 sum) c ≡ (
        if cal_checksum (header m ++ payload) == sum
        then (ok (record m { payload_len = length payload; payload = payload; checksum = sum }), c)
        else (err checksum_mismatch, c))
unfolding check_frame
check_frame-header m payload sum c w h e hs =
    let len : uint16_at (header m) 7 ≡ length payload = omega (arith, payload_len_at m w) in
    let sum_at : uint16_at (payload ++ put_uint16 sum) (length payload) ≡ sum =
      uint16_at_front (length payload) sum payload [] refl hs in
    rw
      (
        len,
        magic_at m w,
        version_at m w,
        flags_at m w,
        type_at m w,
        msg_id_at m w,
        timestamp_at m w,
        take_front (length payload) payload (put_uint16 sum) refl,
        sum_at,
      )
      (ground arith)

-- What `DecodeFrame` answers on a header of `m`, a payload of the length that the header gives, and
-- any checksum.
pub decode_frame-header :
    (m : Msg) (payload : Bytes) (sum : ℕ) (rest : Bytes) (c : Conn)
    → IsWire m
    → length m.payload < 65536
    → length payload ≡ length m.payload
    → sum < 65536
    → c.incoming ≡ header m ++ ((payload ++ put_uint16 sum) ++ rest)
    → decode_frame c ≡ (
        if cal_checksum (header m ++ payload) == sum
        then (
          ok (record m { payload_len = length payload; payload = payload; checksum = sum }),
          record c { incoming = rest },
        )
        else (err checksum_mismatch, record c { incoming = rest }))
unfolding decode_frame decode_body
decode_frame-header m payload sum rest c w h e hs eq =
    let body : Bytes = (payload ++ put_uint16 sum) ++ rest in
    let header_read = read_full_front 13 (header m) body c (omega (arith, length-header m)) eq in
    let len : uint16_at (header m) 7 ≡ length payload = omega (arith, payload_len_at m w) in
    let body_read =
      read_full_front (length payload + 2) (payload ++ put_uint16 sum) rest
        (record c { incoming = body }) (omega (arith, length-append payload (put_uint16 sum)))
        refl in
    let is_magic : (uint16_at (header m) 0 == magic_number) ≡ true =
      (==_iff _ magic_number).1 (magic_at m w ∙ w.magic) in
    rw (header_read, is_magic, len, body_read)
      (check_frame-header m payload sum (record c { incoming = rest }) w h e hs)

-- The message as it is read back: with its length and its checksum.
abbrev pub received : Msg → Msg
received m = record m {
  payload_len = length m.payload;
  checksum = cal_checksum (header m ++ m.payload);
}

-- `DecodeFrame` reads back what `Encode` wrote: the same message with its length and its checksum
-- filled in, whatever follows the frame, which stays on the connection. The message's fields fit
-- their widths and its payload is shorter than 65536 bytes.
pub decode_frame-encode :
    (m : Msg) (rest : Bytes) (c : Conn)
    → IsWire m
    → length m.payload < 65536
    → c.incoming ≡ (encode m).0 ++ rest
    → decode_frame c ≡ (ok (received m), record c { incoming = rest })
unfolding encode
decode_frame-encode m rest c w h e =
    let sum : ℕ = cal_checksum (header m ++ m.payload) in
    let fits : sum < 65536 =
      cal_checksum-lt (header m ++ m.payload)
        (All-append IsByte (header m) m.payload (header-IsBytes m w) w.payload) in
    decode_frame-header m m.payload sum rest c w h refl fits (
      e
      ∙ append_assoc (header m ++ m.payload) (put_uint16 sum) rest
      ∙ append_assoc (header m) m.payload (put_uint16 sum ++ rest)
      ∙ ap (◌++◌ (header m)) (sym (append_assoc m.payload (put_uint16 sum) rest)))
    ∙ rw (==_refl sum)
