-- ===== src/Code.antt =====
-- internal/msg/msg.go: the reason codes of an acknowledgement.
use lepg.Base.{ℕ}

abbrev pub success : ℕ
success = 1

abbrev pub failed : ℕ
failed = 2

abbrev pub bad_sn : ℕ
bad_sn = 3

abbrev pub bad_token : ℕ
bad_token = 4
