-- ===== src/Crc/Bitwise.antt =====
-- The table-driven checksum computes the bitwise CRC16-CCITT.
use lepg.Base.{
  ℕ, zero, suc, ◌+◌, ◌*◌, ◌/◌, ◌%◌, ◌^◌, ◌<◌, ◌≡◌, refl, ap, sym, ◌∙◌, arith, bit_and, bit_xor,
}
use native.Mathlib.Nat.{pow-suc, one-le-pow, mul-le-mul_left, add-zero, zero-add}
use lepg.Base.{
  [], ◌∷◌, get_or, ◌==◌, Bool-cases, inl, inr, true, false, ==_iff, ne→not_==, if◌then◌else◌, Bytes,
  IsBytes,
}
use lepg.Base.Bits.{
  bit_xor_step, bit_xor_fields, bit_xor-lt, bit_xor-zero, zero-bit_xor, bit_xor_assoc, bit_xor_comm,
  bit_and_digit,
}
use lepg.Crc.Detect.{crc_update-lt}
use lepg.Crc.{
  crc16_table, shift_round, shift_rounds, table_entry, fill_table, crc_update, crc_loop,
  cal_checksum,
}

-- The CRC16-CCITT as it is defined, with the polynomial x^16 + x^12 + x^5 + 1 and no table, apart from
-- the code: the register of 16 bits is doubled, and where its top bit falls out, reduced by 0x1021.
abbrev pub ccitt_round : ℕ → ℕ
ccitt_round c = if c / 32768 == 0 then c * 2 % 65536 else bit_xor (c * 2 % 65536) 0x1021

abbrev pub ccitt_rounds : ℕ → ℕ → ℕ
ccitt_rounds zero c = c
ccitt_rounds (suc n) c = ccitt_rounds n (ccitt_round c)

-- A byte joins the top of the register, and eight rounds follow.
abbrev pub ccitt : ℕ → Bytes → ℕ
ccitt c [] = c
ccitt c (b ∷ xs) = ccitt (ccitt_rounds 8 (bit_xor c (b * 256))) xs

top_digit : (c : ℕ) → c < 65536 → bit_and c 0x8000 ≡ c / 32768 * 32768
top_digit c h =
    let parts : c ≡ c / 32768 * 32768 + c % 32768 = omega arith in
    ap (λ (t : ℕ). bit_and t 0x8000) parts
    ∙ bit_and_digit 15 (c / 32768) (c % 32768) (omega arith)
    ∙ omega arith

-- The other digits.
xor_parts : (c d : ℕ) → d < 32768 → bit_xor c d ≡ c / 32768 * 32768 + bit_xor (c % 32768) d
xor_parts c d h =
    let parts : c ≡ c / 32768 * 32768 + c % 32768 = omega arith in
    let low : d ≡ 0 * 32768 + d = omega arith in
    ap (λ (t : ℕ). bit_xor t d) parts
    ∙ ap (bit_xor (c / 32768 * 32768 + c % 32768)) low
    ∙ bit_xor_fields 15 (c / 32768) 0 (c % 32768) d (omega arith) h
    ∙ omega (arith, bit_xor-zero (c / 32768))

xor_double : (a b : ℕ) → bit_xor a b * 2 ≡ bit_xor (a * 2) (b * 2)
xor_double a b =
    let half_a : a * 2 / 2 ≡ a = omega arith in
    let half_b : b * 2 / 2 ≡ b = omega arith in
    let halves : bit_xor (a * 2 / 2) (b * 2 / 2) ≡ bit_xor a b = rw (half_a, half_b) in
    omega (arith, bit_xor_step (a * 2) (b * 2), halves)

-- Digits below the top one pass through a round.
module _ (c d : ℕ) (hc : c < 65536) (hd : d < 32768) where
  same_top : bit_and (bit_xor c d) 0x8000 ≡ bit_and c 0x8000
  same_top =
      let low = bit_xor-lt 15 (c % 32768) d (omega arith) hd in
      omega (
        arith,
        xor_parts c d hd,
        top_digit (bit_xor c d) (omega (arith, low, xor_parts c d hd)),
        top_digit c hc,
      )

  shifted : bit_xor c d * 2 % 65536 ≡ bit_xor (c * 2 % 65536) (d * 2)
  shifted =
      let low = bit_xor-lt 15 (c % 32768) d (omega arith) hd in
      let double : c % 32768 * 2 ≡ c * 2 % 65536 = omega arith in
      omega (arith, low, xor_parts c d hd, xor_double (c % 32768) d)
      ∙ ap (λ (t : ℕ). bit_xor t (d * 2)) double

  shift_round-xor : shift_round (bit_xor c d) ≡ bit_xor (shift_round c) (d * 2)
  unfolding shift_round
  shift_round-xor = elim (Bool-cases (bit_and c 0x8000 == 0)) [
    | inl e ↦ rw (same_top, e) shifted
    | inr e ↦
        rw (same_top, e, shifted)
          (bit_xor_assoc (c * 2 % 65536) (d * 2) 0x1021
            ∙ ap (bit_xor (c * 2 % 65536)) (bit_xor_comm (d * 2) 0x1021)
            ∙ sym (bit_xor_assoc (c * 2 % 65536) 0x1021 (d * 2)))
  ]

shift_round-lt : (c : ℕ) → shift_round c < 65536
unfolding shift_round
shift_round-lt c = elim (Bool-cases (bit_and c 0x8000 == 0)) [
  | inl e ↦ rw e (omega arith)
  | inr e ↦ rw e (bit_xor-lt 16 (c * 2 % 65536) 0x1021 (omega arith) (omega arith))
]

shift_rounds-xor :
    (n c d : ℕ)
    → c < 65536
    → d * 2 ^ n < 65536
    → shift_rounds n (bit_xor c d) ≡ bit_xor (shift_rounds n c) (d * 2 ^ n)
unfolding shift_rounds
shift_rounds-xor zero c d hc hd = let e : d * 1 ≡ d = omega arith in rw e refl
shift_rounds-xor (suc n) c d hc hd =
    let grow : d * 2 * 2 ^ n ≡ d * 2 ^ suc n = omega (arith, ap (λ (t : ℕ). d * t) (pow-suc 2 n)) in
    let small : d < 32768 =
      omega (arith, grow, mul-le-mul_left (d * 2) (one-le-pow n 2 (omega arith))) in
    ap (shift_rounds n) (shift_round-xor c d hc small)
    ∙ shift_rounds-xor n (shift_round c) (d * 2) (shift_round-lt c) (omega (arith, grow, hd))
    ∙ ap (bit_xor (shift_rounds n (shift_round c))) grow

fill_table-entry : (n i j : ℕ) → j < n → get_or (fill_table n i) j 0 ≡ table_entry (i + j)
unfolding fill_table
fill_table-entry zero i j h = absurd (omega arith)
fill_table-entry (suc n) i zero h = let e : i + 0 ≡ i = omega arith in rw e refl
fill_table-entry (suc n) i (suc j) h =
    let e : i + suc j ≡ i + 1 + j = omega arith in rw e (fill_table-entry n (i + 1) j (omega arith))

-- An entry of the table is eight rounds of the byte at the top of the register.
pub table-entry : (x : ℕ) → x < 256 → get_or crc16_table x 0 ≡ shift_rounds 8 (x * 256)
unfolding table_entry
table-entry x h =
    let e : (0 + x) * 256 % 65536 ≡ x * 256 = omega arith in
    unfold crc16_table in (fill_table-entry 256 0 x h ∙ ap (shift_rounds 8) e)

crc_update-entry :
    (crc b : ℕ)
    → crc < 65536
    → b < 256
    → crc_update crc b ≡ bit_xor (shift_rounds 8 (bit_xor (crc / 256) b * 256)) (crc % 256 * 256)
unfolding crc_update
crc_update-entry crc b h hb =
    let x : ℕ = bit_xor (crc / 256) b in
    let high : crc / 256 % 256 ≡ crc / 256 = omega arith in
    let up : crc * 256 % 65536 ≡ crc % 256 * 256 = omega arith in
    rw (high, up)
      (bit_xor_comm (crc % 256 * 256) (get_or crc16_table x 0)
        ∙ ap (λ (t : ℕ). bit_xor t (crc % 256 * 256))
            (table-entry x (bit_xor-lt 8 (crc / 256) b (omega arith) hb)))

crc_update-bitwise :
    (crc b : ℕ) → crc < 65536 → b < 256 → crc_update crc b ≡ shift_rounds 8 (bit_xor crc (b * 256))
crc_update-bitwise crc b h hb =
    let l : ℕ = crc % 256 in
    let x : ℕ = bit_xor (crc / 256) b in
    let x_byte : x < 256 = bit_xor-lt 8 (crc / 256) b (omega arith) hb in
    let high : crc / 256 % 256 ≡ crc / 256 = omega arith in
    let up : crc * 256 % 65536 ≡ l * 256 = omega arith in
    let crc_parts : crc ≡ crc / 256 * 256 + l = omega arith in
    let byte_parts : b * 256 ≡ b * 256 + 0 = omega arith in
    let joined : bit_xor crc (b * 256) ≡ bit_xor (x * 256) l =
      ap (λ (t : ℕ). bit_xor t (b * 256)) crc_parts
      ∙ ap (bit_xor (crc / 256 * 256 + l)) byte_parts
      ∙ bit_xor_fields 8 (crc / 256) b l 0 (omega arith) (omega arith)
      ∙ omega (
        arith,
        bit_xor-zero l,
        bit_xor-zero x,
        zero-bit_xor l,
        bit_xor_fields 8 x 0 0 l (omega arith) (omega arith),
        ap (λ (t : ℕ). bit_xor t (0 * 256 + l)) (add-zero (x * 256)),
        ap (bit_xor (x * 256)) (zero-add l),
      ) in
    crc_update-entry crc b h hb
    ∙ sym (ap (shift_rounds 8) joined ∙ shift_rounds-xor 8 (x * 256) l (omega arith) (omega arith))

shift_round-ccitt : (c : ℕ) → c < 65536 → shift_round c ≡ ccitt_round c
unfolding shift_round
shift_round-ccitt c h = elim (Bool-cases (c / 32768 == 0)) [
  | inl low ↦
      let e : (bit_and c 0x8000 == 0) ≡ true =
        (==_iff _ 0).1 (omega (arith, top_digit c h, (==_iff (c / 32768) 0).0 low)) in
      rw (e, low) refl
  | inr high ↦
      let e : (bit_and c 0x8000 == 0) ≡ false = ne→not_== _ 0 (λ (z : bit_and c 0x8000 ≡ 0).
        cc ((==_iff (c / 32768) 0).1 (omega (arith, top_digit c h, z)), high)) in
      rw (e, high) refl
]

shift_rounds-ccitt : (n c : ℕ) → c < 65536 → shift_rounds n c ≡ ccitt_rounds n c
unfolding shift_rounds
shift_rounds-ccitt zero c h = refl
shift_rounds-ccitt (suc n) c h =
    shift_rounds-ccitt n (shift_round c) (shift_round-lt c)
    ∙ ap (ccitt_rounds n) (shift_round-ccitt c h)

crc_update-ccitt :
    (crc b : ℕ) → crc < 65536 → b < 256 → crc_update crc b ≡ ccitt_rounds 8 (bit_xor crc (b * 256))
crc_update-ccitt crc b h hb =
    crc_update-bitwise crc b h hb
    ∙ shift_rounds-ccitt 8 (bit_xor crc (b * 256)) (bit_xor-lt 16 crc (b * 256) h (omega arith))

crc_loop-bitwise :
    (crc : ℕ) (xs : Bytes) → crc < 65536 → IsBytes xs → crc_loop crc xs ≡ ccitt crc xs
unfolding crc_loop
crc_loop-bitwise crc [] h hx = refl
crc_loop-bitwise crc (x ∷ xs) h (hx, hxs) =
    crc_loop-bitwise (crc_update crc x) xs (crc_update-lt crc x hx) hxs
    ∙ ap (λ (t : ℕ). ccitt t xs) (crc_update-ccitt crc x h hx)

-- The table-driven checksum of every byte string is its CRC16-CCITT as defined bit by bit, with the
-- polynomial 0x1021, the initial value 0xFFFF and no table.
pub cal_checksum-bitwise : (xs : Bytes) → IsBytes xs → cal_checksum xs ≡ ccitt 0xFFFF xs
unfolding cal_checksum
cal_checksum-bitwise xs h = crc_loop-bitwise 0xFFFF xs (omega arith) h
