-- ===== src/Wire.antt =====
-- What the source uses of encoding/binary (big-endian integers) and of byte slices: an element
-- `data[i]` and a slice `data[lo:hi]` at places that the code has checked.
pub mod Laws
pub mod Rest
pub mod Words
use lepg.Base.{ℕ, ◌+◌, ◌-◌, ◌*◌, ◌/◌, ◌%◌, ◌^◌, [], ◌∷◌, ◌++◌, Bytes, get_or, take, drop}

-- `binary.BigEndian.PutUint16`, `AppendUint16`
abbrev pub put_uint16 : ℕ → Bytes
put_uint16 v = (v / 256 % 256) ∷ (v % 256) ∷ []

abbrev pub put_uint32 : ℕ → Bytes
put_uint32 v = (v / 16777216 % 256) ∷ (v / 65536 % 256) ∷ (v / 256 % 256) ∷ (v % 256) ∷ []

abbrev pub put_uint64 : ℕ → Bytes
put_uint64 v = put_uint32 (v / 4294967296) ++ put_uint32 (v % 4294967296)

abbrev pub at : Bytes → ℕ → ℕ
at xs i = get_or xs i 0

abbrev pub slice : Bytes → ℕ → ℕ → Bytes
slice xs lo hi = take (hi - lo) (drop lo xs)

-- `binary.BigEndian.Uint16(data[i:])` and its wider kin
abbrev pub uint16_at : Bytes → ℕ → ℕ
uint16_at xs i = at xs i * 256 + at xs (i + 1)

abbrev pub uint32_at : Bytes → ℕ → ℕ
uint32_at xs i = at xs i * 16777216 + at xs (i + 1) * 65536 + at xs (i + 2) * 256 + at xs (i + 3)

abbrev pub uint64_at : Bytes → ℕ → ℕ
uint64_at xs i = uint32_at xs i * 4294967296 + uint32_at xs (i + 4)
