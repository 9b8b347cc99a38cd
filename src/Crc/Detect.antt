-- ===== src/Crc/Detect.antt =====
-- What the checksum of checksum.go tells apart.
use lepg.Base.{ℕ, ◌+◌, ◌*◌, ◌/◌, ◌%◌, ◌<◌, ◌≡◌, ◌≢◌, refl, ap, sym, ◌∙◌, arith, bit_xor}
use lepg.Base.{[], ◌∷◌, ◌++◌, get_or, Bytes, IsBytes}
use lepg.Base.Bits.{
  bit_xor_fields, bit_xor-lt, bit_xor_cancel_left, bit_xor_cancel_right, zero-bit_xor, bit_xor-zero,
  bit_xor_self,
}
use lepg.Crc.{crc16_table, crc_update, crc_loop, cal_checksum}
use lepg.Wire.{put_uint16}
use lepg.Crc.Table.{table-lt, table-zero, table_low_injective}

-- The index into the table.
index : ℕ → ℕ → ℕ
index crc b = bit_xor (crc / 256 % 256) b

index-lt : (crc b : ℕ) → b < 256 → index crc b < 256
unfolding index
index-lt crc b h = bit_xor-lt 8 (crc / 256 % 256) b (omega arith) h

entry : ℕ → ℕ → ℕ
entry crc b = get_or crc16_table (index crc b) 0

-- The two bytes of the next checksum.
update_bytes :
    (crc b : ℕ)
    → b < 256
    → crc_update crc b ≡ bit_xor (crc % 256) (entry crc b / 256) * 256 + entry crc b % 256
unfolding crc_update entry index
update_bytes crc b h =
    let t : ℕ = entry crc b in
    let low : crc * 256 % 65536 ≡ crc % 256 * 256 + 0 = omega arith in
    let parts : t ≡ t / 256 * 256 + t % 256 = omega arith in
    ap (λ (x : ℕ). bit_xor x t) low
    ∙ ap (bit_xor (crc % 256 * 256 + 0)) parts
    ∙ bit_xor_fields 8 (crc % 256) (t / 256) 0 (t % 256) (omega arith) (omega arith)
    ∙ omega (arith, zero-bit_xor (t % 256))

entry-lt : (crc b : ℕ) → b < 256 → entry crc b < 65536
unfolding entry
entry-lt crc b h = table-lt (index crc b) (index-lt crc b h)

high-lt : (crc b : ℕ) → b < 256 → bit_xor (crc % 256) (entry crc b / 256) < 256
high-lt crc b h =
    bit_xor-lt 8 (crc % 256) (entry crc b / 256) (omega arith) (omega (arith, entry-lt crc b h))

pub crc_update-lt : (crc b : ℕ) → b < 256 → crc_update crc b < 65536
crc_update-lt crc b h = omega (arith, update_bytes crc b h, high-lt crc b h)

module _ (crc crc' b b' : ℕ) (hb : b < 256) (hb' : b' < 256)
    (e : crc_update crc b ≡ crc_update crc' b') where
  same_low : entry crc b % 256 ≡ entry crc' b' % 256
  same_low = omega (arith, e, update_bytes crc b hb, update_bytes crc' b' hb')

  same_index : index crc b ≡ index crc' b'
  unfolding entry
  same_index =
      table_low_injective (index crc b) (index crc' b') (index-lt crc b hb) (index-lt crc' b' hb')
        same_low

  same_carry : crc % 256 ≡ crc' % 256
  unfolding entry
  same_carry = bit_xor_cancel_right (crc % 256) (crc' % 256) (entry crc b / 256) (
      omega (
        arith,
        e,
        update_bytes crc b hb,
        update_bytes crc' b' hb',
        high-lt crc b hb,
        ap (λ (i : ℕ). bit_xor (crc' % 256) (get_or crc16_table i 0 / 256)) same_index,
      ))

-- From one state, different bytes lead to different states.
pub crc_update_byte :
    (crc b b' : ℕ) → b < 256 → b' < 256 → crc_update crc b ≡ crc_update crc b' → b ≡ b'
unfolding index
crc_update_byte crc b b' hb hb' e =
    bit_xor_cancel_left (crc / 256 % 256) b b' (same_index crc crc b b' hb hb' e)

-- By one byte, different states lead to different states.
pub crc_update_state :
    (crc crc' b : ℕ)
    → crc < 65536
    → crc' < 65536
    → b < 256
    → crc_update crc b ≡ crc_update crc' b
    → crc ≡ crc'
unfolding index
crc_update_state crc crc' b h h' hb e = omega (
  arith,
  same_carry crc crc' b b hb hb e,
  bit_xor_cancel_right (crc / 256 % 256) (crc' / 256 % 256) b (same_index crc crc' b b hb hb e),
)

-- From one state, two bytes can be read back off the state that they lead to.
pub crc_update_pair :
    (crc b c b' c' : ℕ)
    → b < 256
    → c < 256
    → b' < 256
    → c' < 256
    → crc_update (crc_update crc b) c ≡ crc_update (crc_update crc b') c'
    → (b ≡ b') × (c ≡ c')
unfolding entry index
crc_update_pair crc b c b' c' hb hc hb' hc' e =
    let carry = same_carry (crc_update crc b) (crc_update crc b') c c' hc hc' e in
    let at_index : index crc b ≡ index crc b' =
      table_low_injective (index crc b) (index crc b') (index-lt crc b hb) (index-lt crc b' hb')
        (omega (arith, carry, update_bytes crc b hb, update_bytes crc b' hb')) in
    let first : b ≡ b' = bit_xor_cancel_left (crc / 256 % 256) b b' at_index in
    (
      first,
      crc_update_byte (crc_update crc b) c c' hc hc'
          (e ∙ ap (λ (x : ℕ). crc_update (crc_update crc x) c') (sym first)),
    )

pub crc_loop-lt : (crc : ℕ) (xs : Bytes) → crc < 65536 → IsBytes xs → crc_loop crc xs < 65536
unfolding crc_loop
crc_loop-lt crc [] h hx = h
crc_loop-lt crc (x ∷ xs) h (hx, hxs) =
    crc_loop-lt (crc_update crc x) xs (crc_update-lt crc x hx) hxs

pub crc_loop-append :
    (crc : ℕ) (xs ys : Bytes) → crc_loop crc (xs ++ ys) ≡ crc_loop (crc_loop crc xs) ys
unfolding crc_loop
crc_loop-append crc [] ys = refl
crc_loop-append crc (x ∷ xs) ys = crc_loop-append (crc_update crc x) xs ys

pub crc_loop_state :
    (crc crc' : ℕ) (xs : Bytes)
    → crc < 65536
    → crc' < 65536
    → IsBytes xs
    → crc_loop crc xs ≡ crc_loop crc' xs
    → crc ≡ crc'
unfolding crc_loop
crc_loop_state crc crc' [] h h' hx e = e
crc_loop_state crc crc' (x ∷ xs) h h' (hx, hxs) e = crc_update_state crc crc' x h h' hx (
    crc_loop_state (crc_update crc x) (crc_update crc' x) xs (crc_update-lt crc x hx)
      (crc_update-lt crc' x hx) hxs e)

-- The checksum of a byte string is a 16-bit word.
pub cal_checksum-lt : (xs : Bytes) → IsBytes xs → cal_checksum xs < 65536
unfolding cal_checksum
cal_checksum-lt xs h = crc_loop-lt _ xs (omega arith) h

-- Two byte strings that differ only within two adjacent bytes have different checksums: the
-- checksum finds every error burst within two adjacent bytes, one changed byte among them.
pub cal_checksum_burst :
    (xs ys : Bytes) (b c b' c' : ℕ)
    → IsBytes xs
    → IsBytes ys
    → IsBytes (b ∷ c ∷ [])
    → IsBytes (b' ∷ c' ∷ [])
    → (b ∷ c ∷ []) ≢ (b' ∷ c' ∷ [])
    → cal_checksum (xs ++ (b ∷ c ∷ ys)) ≢ cal_checksum (xs ++ (b' ∷ c' ∷ ys))
unfolding cal_checksum crc_loop
cal_checksum_burst xs ys b c b' c' hx hy (hb, (hc, _)) (hb', (hc', _)) ne e =
    let start : ℕ = crc_loop 0xFFFF xs in
    let joined =
      crc_loop_state (crc_update (crc_update start b) c) (crc_update (crc_update start b') c') ys
        (crc_update-lt _ c hc) (crc_update-lt _ c' hc') hy
        (sym (crc_loop-append 0xFFFF xs (b ∷ c ∷ ys))
          ∙ e
          ∙ crc_loop-append 0xFFFF xs (b' ∷ c' ∷ ys)) in
    let (same_b, same_c) = crc_update_pair start b c b' c' hb hc hb' hc' joined in ne (cc)

-- The register behind its own two bytes is 0.
crc_update_own : (c : ℕ) → c < 65536 → crc_update c (c / 256 % 256) ≡ c % 256 * 256
unfolding crc_update
crc_update_own c h =
    let shift : c * 256 % 65536 ≡ c % 256 * 256 = omega arith in
    rw (bit_xor_self (c / 256 % 256), table-zero, shift) (bit_xor-zero (c % 256 * 256))

-- A byte string with its checksum behind it has the checksum 0.
pub cal_checksum-own :
    (xs : Bytes) → IsBytes xs → cal_checksum (xs ++ put_uint16 (cal_checksum xs)) ≡ 0
unfolding cal_checksum crc_loop
cal_checksum-own xs h =
    let c : ℕ = crc_loop 0xFFFF xs in
    let small : c < 65536 = crc_loop-lt 0xFFFF xs (omega arith) h in
    let low : c % 256 * 256 / 256 % 256 ≡ c % 256 = omega arith in
    let none_left : c % 256 * 256 % 256 * 256 ≡ 0 = omega arith in
    crc_loop-append 0xFFFF xs (put_uint16 c)
    ∙ ap (λ (r : ℕ). crc_update r (c % 256)) (crc_update_own c small)
    ∙ ap (crc_update (c % 256 * 256)) (sym low)
    ∙ crc_update_own (c % 256 * 256) (omega arith)
    ∙ none_left
