-- ===== src/MsgType.antt =====
-- internal/msg/msg.go: the message types.
use lepg.Base.{ℕ}

abbrev pub handshake : ℕ
handshake = 1

abbrev pub handshake_ack : ℕ
handshake_ack = 2

abbrev pub upload : ℕ
upload = 3

abbrev pub upload_ack : ℕ
upload_ack = 4

abbrev pub heartbeat : ℕ
heartbeat = 5

abbrev pub heartbeat_ack : ℕ
heartbeat_ack = 6

abbrev pub notify : ℕ
notify = 7
