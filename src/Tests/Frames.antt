-- ===== src/Tests/Frames.antt =====
-- The checksum, the frames, the factory of messages, the registry, the timestamps.
use lepg.Base.{
  ℕ, ◌+◌, ◌^◌, ◌<◌, ◌≤◌, ◌≡◌, ◌≢◌, ◌↔◌, refl, ap, arith, [], ◌∷◌, ◌++◌, Bytes, codes, get_or,
  length,
}
use lepg.Errors.{ok, err, checksum_mismatch}
use lepg.MsgType
use lepg.Timestamp.{custom_epoch, from_unix_milli, to_unix_milli, timestamp_round_trips}
use lepg.Conn.{Conn, silent}
use lepg.Wire.{put_uint16}
use lepg.Crc.{
  shift_round, shift_rounds, table_entry, fill_table, crc16_table, crc_update, crc_loop,
  cal_checksum,
}
use lepg.Crc.Detect.{cal_checksum-lt}
use lepg.Crc.Bitwise.{ccitt, cal_checksum-bitwise}
use lepg.Msg as Frame
use lepg.Msg.{Msg, IsWire, header, decode_frame}
use lepg.Msg.RoundTrip.{received}
use lepg.Msg.Corrupt.{decode_frame_corrupt}
use lepg.Msg.Truncated.{cut_error, decode_frame_truncated}
use lepg.Msg.Accepted.{decode_frame-eq-ok}
use lepg.Packet.{MsgFactory, handshake, new_msg_factory, parse_msg, packet_registry}
use lepg.Packet.Transport.{parse_msg-decode_frame-new_msg}
use lepg.Tests.Data.{
  gateway, now, one_message, hello, hello_built, hello_stream, hello-IsWire, hello_stream-IsBytes,
  hello_read,
}

check_value : cal_checksum (codes "123456789") ≡ 0x29B1
unfolding cal_checksum crc_loop crc_update crc16_table fill_table table_entry shift_rounds
    shift_round
check_value = refl

cal_checksum-bitwise_example : cal_checksum (codes "123456789") ≡ ccitt 0xFFFF (codes "123456789")
cal_checksum-bitwise_example = cal_checksum-bitwise (codes "123456789") (omega arith)

abbrev sent_bytes : Bytes
sent_bytes = 8 ∷ 9 ∷ []

one_byte_differs : sent_bytes ≢ (8 ∷ 10 ∷ [])
one_byte_differs e = omega (arith, ap (λ (bs : Bytes). get_or bs 1 0) e)

parse_msg-decode_frame-new_msg_example :
    (decode_frame hello_stream ≡ (ok (received hello), record hello_stream { incoming = 7 ∷ [] }))
    × (parse_msg packet_registry (received hello) ≡ ok (handshake gateway))
parse_msg-decode_frame-new_msg_example =
    parse_msg-decode_frame-new_msg new_msg_factory one_message now MsgType.handshake
      (handshake gateway) hello (7 ∷ []) hello_stream (omega arith) refl hello_built (omega arith)
      refl

decode_frame-eq-ok_example :
    (hello_stream.incoming ≡ (Frame.encode (received hello)).0 ++ (7 ∷ []))
    × (record hello_stream { incoming = 7 ∷ [] } ≡ record hello_stream { incoming = 7 ∷ [] })
    × IsWire (received hello)
    × (received hello ≡ received (received hello))
    × (length hello.payload < 65536)
decode_frame-eq-ok_example =
    decode_frame-eq-ok hello_stream (record hello_stream { incoming = 7 ∷ [] }) (received hello)
      hello_stream-IsBytes hello_read

-- The last two bytes of the token changed on the way.
abbrev changed : Msg
changed = record hello { payload = 1 ∷ 3 ∷ codes "GW1" ++ (2 ∷ codes "s1") }

changed-IsWire : IsWire changed
changed-IsWire = record {
  magic = refl;
  version = omega arith;
  flags = omega arith;
  type = omega arith;
  msg_id = omega arith;
  timestamp = omega arith;
  payload = omega arith;
}

token_differs : codes "t0" ≢ codes "s1"
token_differs e = omega (arith, ap (λ (bs : Bytes). get_or bs 0 0) e)

abbrev front : Bytes
front = header hello ++ (1 ∷ 3 ∷ codes "GW1" ++ (2 ∷ []))

hello_sum : ℕ
hello_sum = cal_checksum (header hello ++ hello.payload)

hello_sum-lt : hello_sum < 65536
unfolding hello_sum header
hello_sum-lt = cal_checksum-lt (header hello ++ hello.payload) (omega arith)

abbrev changed_stream : Conn
changed_stream = record {
  incoming = header changed ++ ((changed.payload ++ put_uint16 hello_sum) ++ []);
  ending = silent;
  sent = [];
  write_results = [];
}

hello_frame : (Frame.encode hello).0 ≡ front ++ (116 ∷ 48 ∷ put_uint16 hello_sum)
unfolding Frame.encode header hello_sum
hello_frame = refl

changed_frame :
    (header changed ++ changed.payload) ++ put_uint16 hello_sum
    ≡ front ++ (115 ∷ 49 ∷ put_uint16 hello_sum)
unfolding header
changed_frame = refl

decode_frame_corrupt_example :
    decode_frame changed_stream ≡ (err checksum_mismatch, record changed_stream { incoming = [] })
decode_frame_corrupt_example =
    decode_frame_corrupt hello changed hello_sum front (put_uint16 hello_sum) 116 48 115 49 []
      changed_stream hello-IsWire changed-IsWire (omega arith) hello_sum-lt hello_frame
      changed_frame token_differs refl

abbrev cut_stream : Conn
cut_stream = record {
  incoming = header hello ++ (1 ∷ 3 ∷ []);
  ending = silent;
  sent = [];
  write_results = [];
}

abbrev missing : Bytes
missing =
    codes "W1" ++ (2 ∷ codes "t0") ++ put_uint16 (cal_checksum (header hello ++ hello.payload))

cut_hello : (Frame.encode hello).0 ≡ cut_stream.incoming ++ (71 ∷ missing)
unfolding Frame.encode header
cut_hello = refl

decode_frame_truncated_example :
    decode_frame cut_stream ≡ (err (cut_error cut_stream), record cut_stream { incoming = [] })
decode_frame_truncated_example =
    decode_frame_truncated hello 71 missing cut_stream hello-IsWire (omega arith) cut_hello

abbrev wrapping : MsgFactory
wrapping = record { current = 4294967294 }

timestamp_round_trips_example :
    (from_unix_milli (to_unix_milli 1000) ≡ 1000)
    × ((to_unix_milli (from_unix_milli 1700000000000) ≡ 1700000000000)
        ↔ ((custom_epoch ≤ 1700000000000) × (1700000000000 < custom_epoch + 2 ^ 32)))
timestamp_round_trips_example = timestamp_round_trips 1000 1700000000000 (omega arith) (omega arith)

-- A time in November 2023 does not survive the way to a timestamp and back.
time_lost : to_unix_milli (from_unix_milli 1700000000000) ≢ 1700000000000
unfolding to_unix_milli from_unix_milli
time_lost e = absurd (omega arith)
