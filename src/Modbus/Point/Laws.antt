-- ===== src/Modbus/Point/Laws.antt =====
-- When reading a point panics, and what is written when a value is written back as it was read.
use lepg.Base.{
  ℕ, ◌<◌, ◌≡◌, ◌≢◌, ◌↔◌, ◌⊎◌, inl, inr, Bytes, IsBytes, [], ◌∷◌, length, arith, refl, ap,
}
use lepg.Base.Int.{pos, signed16, signed32}
use lepg.Float.{Float}
use lepg.Model.Modbus.{
  ByteOrder, byte_order_conversion, byte_order_conversion_twice, unset, big_endian, little_endian,
  mid_little_endian, mid_big_endian, other_order,
}
use lepg.Model.Value.{
  DataType, bool, int16, uint16, int32, uint32, float32, float64, string, json, other_type, number,
}
use lepg.Config.Point.{ModbusPointConfig}
use lepg.Modbus.Point.{
  Parsed, panicked, parsed, word, double_word, float_of, parse_as, parse_point_value,
}
use lepg.Modbus.Write.{
  request, write_single_register, write_multiple_registers, put_uint32, plan_write,
}

-- The bytes that a type is read from without a test of the length.
abbrev pub needed : DataType → ℕ
needed bool = 1
needed int16 = 2
needed uint16 = 2
needed int32 = 4
needed uint32 = 4
needed _ = 0

-- The conversions between integers of up to 32 bits and float64, which holds each of them: there and
-- back they are the same.
pub record IsIntExact (fl : Float) : Type 0 where
  pub int16_exact : (w : ℕ) → w < 65536 → fl.to_int16 (fl.of_int (signed16 w)) ≡ w
  pub uint16_exact : (w : ℕ) → w < 65536 → fl.to_uint16 (fl.of_int (pos w)) ≡ w
  pub int32_exact : (w : ℕ) → w < 4294967296 → fl.to_int32 (fl.of_int (signed32 w)) ≡ w
  pub uint32_exact : (w : ℕ) → w < 4294967296 → fl.to_uint32 (fl.of_int (pos w)) ≡ w

-- This one value comes back through the scale and the offset of the point as it went in. A value that
-- is rounded on the way does not.
abbrev pub IsUnscaled : (fl : Float) → ModbusPointConfig fl.F → fl.F → Type 0
IsUnscaled fl p raw = fl.div (fl.sub (fl.add (fl.mul raw p.scale) p.offset) p.offset) p.scale ≡ raw

-- The number that the bits of a register, or of two, stand for in an integer type.
abbrev pub int_of : (fl : Float) → DataType → ℕ → fl.F
int_of fl int16 w = fl.of_int (signed16 w)
int_of fl int32 w = fl.of_int (signed32 w)
int_of fl _ w = fl.of_int (pos w)

-- The bits of four bytes.
abbrev pub bits_of : Bytes → ℕ
bits_of (a ∷ b ∷ c ∷ d ∷ rest) = double_word a b c d
bits_of _ = 0

put_uint32-double_word :
    (a b c d : ℕ)
    → a < 256
    → b < 256
    → c < 256
    → d < 256
    → put_uint32 (double_word a b c d) ≡ a ∷ b ∷ c ∷ d ∷ []
unfolding put_uint32
put_uint32-double_word a b c d ha hb hc hd = ground arith

value_of :
    {A : Type 0} (x y : A) → ◌≡◌ {A = Parsed A} (parsed (number x)) (parsed (number y)) → x ≡ y
value_of x y h = cc

module _ (fl : Float) (p : ModbusPointConfig fl.F) where
  open fl use {F}

  float_of_lem : (bytes : Bytes) → float_of fl p bytes ≢ panicked
  float_of_lem [] h = cc
  float_of_lem (a ∷ []) h = cc
  float_of_lem (a ∷ b ∷ []) h = cc
  float_of_lem (a ∷ b ∷ c ∷ []) h = cc
  float_of_lem (a ∷ b ∷ c ∷ d ∷ r) h = cc

  short_panics :
      (dt : DataType) (results : Bytes)
      → (parse_as fl dt p results ≡ panicked) ↔ (length results < needed dt)
  short_panics bool [] = (λ h. omega arith, λ h. refl)
  short_panics bool (a ∷ r) = (λ h. cc, λ h. absurd (omega arith))
  short_panics int16 [] = (λ h. omega arith, λ h. refl)
  short_panics int16 (a ∷ []) = (λ h. omega arith, λ h. refl)
  short_panics int16 (a ∷ b ∷ r) = (λ h. cc, λ h. absurd (omega arith))
  short_panics uint16 [] = (λ h. omega arith, λ h. refl)
  short_panics uint16 (a ∷ []) = (λ h. omega arith, λ h. refl)
  short_panics uint16 (a ∷ b ∷ r) = (λ h. cc, λ h. absurd (omega arith))
  short_panics int32 [] = (λ h. omega arith, λ h. refl)
  short_panics int32 (a ∷ []) = (λ h. omega arith, λ h. refl)
  short_panics int32 (a ∷ b ∷ []) = (λ h. omega arith, λ h. refl)
  short_panics int32 (a ∷ b ∷ c ∷ []) = (λ h. omega arith, λ h. refl)
  short_panics int32 (a ∷ b ∷ c ∷ d ∷ r) = (λ h. cc, λ h. absurd (omega arith))
  short_panics uint32 [] = (λ h. omega arith, λ h. refl)
  short_panics uint32 (a ∷ []) = (λ h. omega arith, λ h. refl)
  short_panics uint32 (a ∷ b ∷ []) = (λ h. omega arith, λ h. refl)
  short_panics uint32 (a ∷ b ∷ c ∷ []) = (λ h. omega arith, λ h. refl)
  short_panics uint32 (a ∷ b ∷ c ∷ d ∷ r) = (λ h. cc, λ h. absurd (omega arith))
  short_panics float32 [] = (λ h. cc, λ h. elim h [ ])
  short_panics float32 (a ∷ []) = (λ h. cc, λ h. elim h [ ])
  short_panics float32 (a ∷ b ∷ []) = (λ h. cc, λ h. elim h [ ])
  short_panics float32 (a ∷ b ∷ c ∷ []) = (λ h. cc, λ h. elim h [ ])
  short_panics float32 (a ∷ b ∷ c ∷ d ∷ r) = (
    λ h. absurd (float_of_lem (byte_order_conversion (a ∷ b ∷ c ∷ d ∷ []) p.byte_order) h),
    λ h. elim h [ ],
  )
  short_panics float64 results = (λ h. cc, λ h. elim h [ ])
  short_panics string results = (λ h. cc, λ h. elim h [ ])
  short_panics json results = (λ h. cc, λ h. elim h [ ])
  short_panics (other_type s) results = (λ h. cc, λ h. elim h [ ])

  -- Reading a point panics exactly where the answer is shorter than the type of the point needs: one
  -- byte for a bool, two for a 16-bit and four for a 32-bit integer; a float32 is never read out of
  -- bounds.
  pub parse_point_value_panics :
      (results : Bytes)
      → (parse_point_value fl p results ≡ panicked) ↔ (length results < needed p.data_type)
  unfolding parse_point_value
  parse_point_value_panics results = short_panics p.data_type results

  float_read :
      (a b c d : ℕ) (rest : Bytes) (v : F)
      → p.data_type ≡ float32
      → parse_point_value fl p (a ∷ b ∷ c ∷ d ∷ rest) ≡ parsed (number v)
      → float_of fl p (byte_order_conversion (a ∷ b ∷ c ∷ d ∷ []) p.byte_order) ≡ parsed (number v)
  unfolding parse_point_value
  float_read a b c d rest v dt h = rw dt at h

  reordered :
      {xs ys : Bytes}
      → xs ≡ ys
      → request (write_multiple_registers p.address 2 (byte_order_conversion xs p.byte_order))
        ≡ request (write_multiple_registers p.address 2 (byte_order_conversion ys p.byte_order))
  reordered e =
      ap
        (λ (bytes : Bytes).
          request (write_multiple_registers p.address 2 (byte_order_conversion bytes p.byte_order)))
        e

  module _ (exact : IsIntExact fl) (code : p.function_code ≡ pos 3) where
    -- For a point of function code 3, where float64 holds the integers and the value that was read comes
    -- back through the scale and the offset: a 16-bit register that is written back as it was read gets
    -- the bits that it had.
    pub plan_write-parse_point_value :
        (a b : ℕ) (rest : Bytes) (v : F)
        → (p.data_type ≡ int16) ⊎ (p.data_type ≡ uint16)
        → a < 256
        → b < 256
        → IsUnscaled fl p (int_of fl p.data_type (word a b))
        → parse_point_value fl p (a ∷ b ∷ rest) ≡ parsed (number v)
        → plan_write fl p v ≡ request (write_single_register p.address (word a b))
    unfolding parse_point_value plan_write
    plan_write-parse_point_value a b rest v (inl dt) ha hb back h =
        let read : fl.add (fl.mul (fl.of_int (signed16 (word a b))) p.scale) p.offset ≡ v =
          value_of _ v (rw dt at h) in
        rw (code, dt, ← read, rw dt at back, exact.int16_exact (word a b) (omega arith)) refl
    plan_write-parse_point_value a b rest v (inr dt) ha hb back h =
        let read : fl.add (fl.mul (fl.of_int (pos (word a b))) p.scale) p.offset ≡ v =
          value_of _ v (rw dt at h) in
        rw (code, dt, ← read, rw dt at back, exact.uint16_exact (word a b) (omega arith)) refl

    -- For a point of function code 3, where float64 holds the integers and the value that was read comes
    -- back through the scale and the offset: two registers that were read as a 32-bit integer and are
    -- written back as that integer get their four bytes in the byte order of the point, in which they
    -- were not read: with the order "abcd" the bytes that they had, with another order these bytes
    -- reordered.
    pub plan_write_reorders :
        (a b c d : ℕ) (rest : Bytes) (v : F)
        → (p.data_type ≡ int32) ⊎ (p.data_type ≡ uint32)
        → IsBytes (a ∷ b ∷ c ∷ d ∷ [])
        → IsUnscaled fl p (int_of fl p.data_type (double_word a b c d))
        → parse_point_value fl p (a ∷ b ∷ c ∷ d ∷ rest) ≡ parsed (number v)
        → plan_write fl p v
          ≡ request (
              write_multiple_registers p.address 2
                (byte_order_conversion (a ∷ b ∷ c ∷ d ∷ []) p.byte_order))
    unfolding parse_point_value plan_write
    plan_write_reorders a b c d rest v (inl dt) (ha, (hb, (hc, (hd, _)))) back h =
        let w : ℕ = double_word a b c d in
        let read : fl.add (fl.mul (fl.of_int (signed32 w)) p.scale) p.offset ≡ v =
          value_of _ v (rw dt at h) in
        rw (code, dt, ← read, rw dt at back, exact.int32_exact w (omega arith))
          (reordered (put_uint32-double_word a b c d ha hb hc hd))
    plan_write_reorders a b c d rest v (inr dt) (ha, (hb, (hc, (hd, _)))) back h =
        let w : ℕ = double_word a b c d in
        let read : fl.add (fl.mul (fl.of_int (pos w)) p.scale) p.offset ≡ v =
          value_of _ v (rw dt at h) in
        rw (code, dt, ← read, rw dt at back, exact.uint32_exact w (omega arith))
          (reordered (put_uint32-double_word a b c d ha hb hc hd))

  -- The bytes as the conversion orders them, read and written.
  float_written :
      (e f g i : ℕ) (v : F)
      → IsBytes (e ∷ f ∷ g ∷ i ∷ [])
      → IsUnscaled fl p (fl.of_bits32 (double_word e f g i))
      → fl.bits32 (fl.of_bits32 (double_word e f g i)) ≡ double_word e f g i
      → float_of fl p (e ∷ f ∷ g ∷ i ∷ []) ≡ parsed (number v)
      → put_uint32 (fl.bits32 (fl.div (fl.sub v p.offset) p.scale)) ≡ e ∷ f ∷ g ∷ i ∷ []
  float_written e f g i v (he, (hf, (hg, (hi, _)))) back exact h =
      let w : ℕ = double_word e f g i in
      let read : fl.add (fl.mul (fl.of_bits32 w) p.scale) p.offset ≡ v = value_of _ v h in
      rw (← read, back, exact, put_uint32-double_word e f g i he hf hg hi) refl

  float_round_trip :
      (order : ByteOrder) (a b c d : ℕ) (v : F)
      → IsBytes (a ∷ b ∷ c ∷ d ∷ [])
      → let bits = bits_of (byte_order_conversion (a ∷ b ∷ c ∷ d ∷ []) order) in
        IsUnscaled fl p (fl.of_bits32 bits)
        → fl.bits32 (fl.of_bits32 bits) ≡ bits
        → float_of fl p (byte_order_conversion (a ∷ b ∷ c ∷ d ∷ []) order) ≡ parsed (number v)
        → put_uint32 (fl.bits32 (fl.div (fl.sub v p.offset) p.scale))
          ≡ byte_order_conversion (a ∷ b ∷ c ∷ d ∷ []) order
  unfolding byte_order_conversion
  float_round_trip unset a b c d v hs back exact h = float_written a b c d v hs back exact h
  float_round_trip big_endian a b c d v hs back exact h = float_written a b c d v hs back exact h
  float_round_trip little_endian a b c d v (ha, (hb, (hc, (hd, _)))) back exact h =
      float_written d c b a v (hd, (hc, (hb, (ha, tt)))) back exact h
  float_round_trip mid_little_endian a b c d v (ha, (hb, (hc, (hd, _)))) back exact h =
      float_written b a d c v (hb, (ha, (hd, (hc, tt)))) back exact h
  float_round_trip mid_big_endian a b c d v (ha, (hb, (hc, (hd, _)))) back exact h =
      float_written c d a b v (hc, (hd, (ha, (hb, tt)))) back exact h
  float_round_trip (other_order s) a b c d v hs back exact h =
      float_written a b c d v hs back exact h

  -- Two registers of a point of function code 3 that were read as a float32 and are written back as that
  -- number get the four bytes that they had, for every byte order. The number comes back from its bits
  -- as these bits, which a signalling NaN does not, and through the scale and the offset of the point
  -- as it went in, which a number that is rounded there, or the negative zero, does not.
  pub plan_write-parse_point_value_float32 :
      (a b c d : ℕ) (rest : Bytes) (v : F)
      → p.function_code ≡ pos 3
      → p.data_type ≡ float32
      → IsBytes (a ∷ b ∷ c ∷ d ∷ [])
      → let bits = bits_of (byte_order_conversion (a ∷ b ∷ c ∷ d ∷ []) p.byte_order) in
        IsUnscaled fl p (fl.of_bits32 bits)
        → fl.bits32 (fl.of_bits32 bits) ≡ bits
        → parse_point_value fl p (a ∷ b ∷ c ∷ d ∷ rest) ≡ parsed (number v)
        → plan_write fl p v ≡ request (write_multiple_registers p.address 2 (a ∷ b ∷ c ∷ d ∷ []))
  unfolding plan_write
  plan_write-parse_point_value_float32 a b c d rest v code dt hs back exact h =
      let read : float_of fl p (byte_order_conversion (a ∷ b ∷ c ∷ d ∷ []) p.byte_order)
          ≡ parsed (number v) =
        float_read a b c d rest v dt h in
      rw
        (
          code,
          dt,
          float_round_trip p.byte_order a b c d v hs back exact read,
          byte_order_conversion_twice (a ∷ b ∷ c ∷ d ∷ []) p.byte_order,
        )
        refl
