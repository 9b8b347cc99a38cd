-- ===== src/Crc.antt =====
-- internal/utils/checksum.go: the table-driven CRC16-CCITT of a byte string.
pub mod Bitwise
pub mod Table
pub mod Detect
use lepg.Base.{ℕ, zero, suc, ◌+◌, ◌*◌, ◌/◌, ◌%◌, bit_and, bit_xor}
use lepg.Base.{List, [], ◌∷◌, Bytes, get_or, ◌==◌, if◌then◌else◌}

abbrev pub crc16_poly : ℕ
crc16_poly = 0x1021

abbrev pub crc16_init : ℕ
crc16_init = 0xFFFF

-- One round of the loop of `init`: `crc << 1` in a uint16.
unfoldable pub shift_round : ℕ → ℕ
shift_round crc =
    if bit_and crc 0x8000 == 0 then crc * 2 % 65536 else bit_xor (crc * 2 % 65536) crc16_poly

unfoldable pub shift_rounds : ℕ → ℕ → ℕ
unfolding shift_round
shift_rounds zero crc = crc
shift_rounds (suc n) crc = shift_rounds n (shift_round crc)

-- `crc := uint16(i) << 8`, and eight rounds.
unfoldable pub table_entry : ℕ → ℕ
unfolding shift_rounds
table_entry i = shift_rounds 8 (i * 256 % 65536)

-- The entries from `i` on, `n` of them: `for i := range crc16Table`.
unfoldable pub fill_table : ℕ → ℕ → List ℕ
unfolding table_entry
fill_table zero i = []
fill_table (suc n) i = table_entry i ∷ fill_table n (i + 1)

unfoldable pub crc16_table : List ℕ
unfolding fill_table
crc16_table = fill_table 256 0

-- `crc = (crc << 8) ^ crc16Table[byte(crc>>8)^b]`
unfoldable pub crc_update : ℕ → ℕ → ℕ
unfolding crc16_table
crc_update crc b = bit_xor (crc * 256 % 65536) (get_or crc16_table (bit_xor (crc / 256 % 256) b) 0)

unfoldable pub crc_loop : ℕ → Bytes → ℕ
unfolding crc_update
crc_loop crc [] = crc
crc_loop crc (b ∷ payload) = crc_loop (crc_update crc b) payload

unfoldable pub cal_checksum : Bytes → ℕ
unfolding crc_loop
cal_checksum payload = crc_loop crc16_init payload
