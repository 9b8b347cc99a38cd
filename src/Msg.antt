-- ===== src/Msg.antt =====
-- internal/msg/msg.go: the frame of the tunnel protocol, written by `Msg.Encode` and read by
-- `DecodeFrame`.
pub mod RoundTrip
pub mod Corrupt
pub mod Accepted
pub mod Truncated
pub mod Silent
use lepg.Base.{ℕ, ◌+◌, ◌≡◌, ◌<◌, ◌^◌, ◌%◌, ◌-◌, [], ◌∷◌, ◌++◌, Bytes, IsBytes, length, take, drop}
use lepg.Base.{◌==◌, if◌then◌else◌, not}
use lepg.Crc.{cal_checksum}
use lepg.Errors.{Error, Result, ok, err, invalid_magic, checksum_mismatch}
use lepg.Wire.{put_uint16, put_uint32, at, uint16_at, uint32_at}
use lepg.Conn.{Conn, OnConn, pure, fail, ◌>>=◌, read_full}

abbrev pub magic_number : ℕ
magic_number = 0x4E59

-- 2 + 1 + 1 + 1 + 2 + 2 + 4
abbrev pub header_size : ℕ
header_size = 13

abbrev pub crc_size : ℕ
crc_size = 2

abbrev pub version : ℕ
version = 1

pub record Msg : Type 0 where
  pub magic : ℕ
  pub version : ℕ
  pub flags : ℕ
  pub type : ℕ
  pub msg_id : ℕ
  pub payload_len : ℕ
  pub timestamp : ℕ
  pub payload : Bytes
  pub checksum : ℕ

-- The first 13 bytes of the frame.
unfoldable pub header : Msg → Bytes
header m =
    put_uint16 m.magic
    ++ (m.version ∷ m.flags ∷ m.type ∷ put_uint16 m.msg_id
        ++ (put_uint16 (length m.payload % 65536) ++ put_uint32 m.timestamp))

-- `Encode`: the buffer, and the message with its checksum set. It never fails.
unfoldable pub encode : Msg → Bytes × Msg
encode m =
    let covered = header m ++ m.payload in
    let checksum = cal_checksum covered in
    (covered ++ put_uint16 checksum, record m { checksum = checksum })

-- What `DecodeFrame` does once it has the header, and once it has the rest.
unfoldable pub check_frame : Bytes → Bytes → OnConn Msg
check_frame header_buf rest_buf =
    let payload_len = uint16_at header_buf 7 in
    let payload = take payload_len rest_buf in
    let checksum = uint16_at rest_buf payload_len in
    let m : Msg = record {
      magic = uint16_at header_buf 0;
      version = at header_buf 2;
      flags = at header_buf 3;
      type = at header_buf 4;
      msg_id = uint16_at header_buf 5;
      payload_len = payload_len;
      timestamp = uint32_at header_buf 9;
      payload = payload;
      checksum = checksum;
    } in
    if cal_checksum (header_buf ++ payload) == checksum then pure m else fail checksum_mismatch

unfoldable pub decode_body : Bytes → OnConn Msg
decode_body header_buf = do
  rest_buf ← read_full (uint16_at header_buf 7 + crc_size)
  check_frame header_buf rest_buf

unfoldable pub decode_frame : OnConn Msg
decode_frame = do
  header_buf ← read_full header_size
  if uint16_at header_buf 0 == magic_number then decode_body header_buf else fail invalid_magic

-- A message whose fields fit their widths and that carries the protocol's magic number.
pub record IsWire (m : Msg) : Type 0 where
  pub magic : m.magic ≡ magic_number
  pub version : m.version < 256
  pub flags : m.flags < 256
  pub type : m.type < 256
  pub msg_id : m.msg_id < 65536
  pub timestamp : m.timestamp < 2 ^ 32
  pub payload : IsBytes m.payload
