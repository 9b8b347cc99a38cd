-- ===== src/Tests/Numbers.antt =====
-- Integers in the place of float64, and texts for them, so that the code runs on concrete inputs.
use lepg.Base.{
  ℕ, zero, suc, ◌+◌, ◌-◌, ◌*◌, ◌/◌, ◌%◌, ◌<◌, ◌≡◌, Bytes, codes, bytes_eq, Bool, true, false, ◌&&◌,
  [], ◌∷◌, Option, none, some, leb, ◌==◌, arith, if◌then◌else◌,
}
use lepg.Base.Int.{ℤ, pos, negsuc, signed16, signed32}
use lepg.Float.{Float}
use lepg.Model.Value.{Texts}
use lepg.Config.Device.{decimal_int}

abbrev difference : ℕ → ℕ → ℤ
difference a b = if leb b a then pos (a - b) else negsuc (b - a - 1)

abbrev add : ℤ → ℤ → ℤ
add (pos a) (pos b) = pos (a + b)
add (pos a) (negsuc b) = difference a (b + 1)
add (negsuc a) (pos b) = difference b (a + 1)
add (negsuc a) (negsuc b) = negsuc (a + b + 1)

abbrev sub : ℤ → ℤ → ℤ
sub a (pos zero) = a
sub a (pos (suc n)) = add a (negsuc n)
sub a (negsuc n) = add a (pos (n + 1))

-- Scales are positive here.
abbrev mul : ℤ → ℤ → ℤ
mul (pos a) (pos b) = pos (a * b)
mul (negsuc a) (pos b) = difference 0 ((a + 1) * b)
mul a (negsuc b) = a

abbrev div : ℤ → ℤ → ℤ
div (pos a) (pos b) = pos (a / b)
div (negsuc a) (pos b) = difference 0 ((a + 1) / b)
div a (negsuc b) = a

abbrev bits : ℕ → ℤ → ℕ
bits w (pos n) = n % w
bits w (negsuc n) = w - 1 - n % w

abbrev pub integers : Float
integers = record {
  F = ℤ;
  of_int = λ z. z;
  add = add;
  sub = sub;
  mul = mul;
  div = div;
  is_zero = λ z. elim z [ pos n ↦ n == 0 | negsuc n ↦ false ];
  of_bits32 = pos;
  bits32 = bits 4294967296;
  to_int16 = bits 65536;
  to_uint16 = bits 65536;
  to_int32 = bits 4294967296;
  to_uint32 = bits 4294967296;
}

pub unscaled : (v : ℤ) → div (sub (add (mul v (pos 1)) (pos 0)) (pos 0)) (pos 1) ≡ v
unscaled (pos n) = ground arith
unscaled (negsuc n) = ground arith

pub int16_exact : (w : ℕ) → w < 65536 → bits 65536 (signed16 w) ≡ w
int16_exact w h = ground arith

pub int32_exact : (w : ℕ) → w < 4294967296 → bits 4294967296 (signed32 w) ≡ w
int32_exact w h = ground arith

-- Digits only.
abbrev digits_from : ℕ → Bytes → Option ℤ
digits_from n [] = some (pos n)
digits_from n (c ∷ s) = if leb 48 c && leb c 57 then digits_from (n * 10 + (c - 48)) s else none

abbrev digits : Bytes → Option ℤ
digits [] = none
digits (c ∷ s) = digits_from 0 (c ∷ s)

abbrev truths : Bytes → Option Bool
truths s =
    if bytes_eq s (codes "true")
    then some true
    else if bytes_eq s (codes "false")
    then some false
    else none

abbrev pub texts : Texts ℤ
texts = record {
  format_float = decimal_int;
  parse_float = digits;
  parse_bool = truths;
  sha256 = λ s. s;
  hex = λ s. s;
}
