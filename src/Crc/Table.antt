-- ===== src/Crc/Table.antt =====
-- The table of checksum.go: its entries are 16-bit words, and their low bytes are all distinct.
use lepg.Base.{ℕ, zero, suc, ◌+◌, ◌%◌, ◌<◌, ◌≡◌, refl, ap, arith}
use lepg.Base.{
  Bool, true, ◌&&◌, List, [], ◌∷◌, length, get_or, ltb, ◌==◌, if◌then◌else◌, ==_iff, ltb→lt,
}
use lepg.Crc.{crc16_table}

-- All entries from position `i` on pass a test of the position and the entry.
all_from : (ℕ → ℕ → Bool) → ℕ → List ℕ → Bool
all_from test i [] = true
all_from test i (t ∷ ts) = test i t && all_from test (i + 1) ts

all_from_sound :
    (test : ℕ → ℕ → Bool) (i : ℕ) (ts : List ℕ) (n d : ℕ)
    → all_from test i ts ≡ true
    → n < length ts
    → test (i + n) (get_or ts n d) ≡ true
unfolding all_from
all_from_sound test i [] n d e h = absurd (omega arith)
all_from_sound test i (t ∷ ts) zero d e h =
    let here : i + 0 ≡ i = omega arith in rw here (ground arith)
all_from_sound test i (t ∷ ts) (suc n) d e h =
    let there : i + suc n ≡ i + 1 + n = omega arith in
    rw there (all_from_sound test (i + 1) ts n d (ground arith) (omega arith))

position : ℕ → ℕ → List ℕ → ℕ
position low i [] = 0
position low i (t ∷ ts) = if t % 256 == low then i else position low (i + 1) ts

table_words : all_from (λ i t. ltb t 65536) 0 crc16_table ≡ true
unfolding all_from crc16_table
table_words = refl

table_low_distinct : all_from (λ i t. position (t % 256) 0 crc16_table == i) 0 crc16_table ≡ true
unfolding all_from position crc16_table
table_low_distinct = refl

length-table : length crc16_table ≡ 256
unfolding crc16_table
length-table = refl

pub table-lt : (x : ℕ) → x < 256 → get_or crc16_table x 0 < 65536
table-lt x h = ltb→lt _ _ (
    all_from_sound (λ i t. ltb t 65536) 0 crc16_table x 0 table_words (omega (arith, length-table)))

found_at : (x : ℕ) → x < 256 → position (get_or crc16_table x 0 % 256) 0 crc16_table ≡ x
found_at x h = omega (
  arith,
  (==_iff _ (0 + x)).0 (
      all_from_sound (λ i t. position (t % 256) 0 crc16_table == i) 0 crc16_table x 0
        table_low_distinct (omega (arith, length-table))),
)

-- The low byte of an entry determines its position.
pub table_low_injective :
    (x y : ℕ)
    → x < 256
    → y < 256
    → get_or crc16_table x 0 % 256 ≡ get_or crc16_table y 0 % 256
    → x ≡ y
table_low_injective x y hx hy e =
    omega (arith, found_at x hx, found_at y hy, ap (λ (t : ℕ). position t 0 crc16_table) e)

pub table-zero : get_or crc16_table 0 0 ≡ 0
unfolding crc16_table
table-zero = refl
