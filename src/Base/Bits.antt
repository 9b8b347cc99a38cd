-- ===== src/Base/Bits.antt =====
-- Exclusive or at variables: its lowest digit, and the laws that follow by strong induction.
use Prim.Native.Nat.{ℕ, zero, suc, ◌+◌, ◌*◌, ◌/◌, ◌%◌, ◌^◌, ◌≤◌, ◌<◌}
use Prim.Native.Nat.{digits, differ, min, bit_and, bit_xor, bit_and-bitwise, bit_xor-bitwise}
use mathlib.Core.Path.{◌≡◌, refl, ap, ◌∙◌}
use native.Mathlib.Nat.{pow-suc}
use native.Mathlib.Omega.{arith}

-- `digits` counts the digits down from a bound; any bound that is large enough gives the same.
module _ (z : ℕ → ℕ) (f : ℕ → ℕ → ℕ) where
  digits_bound : (a n m b : ℕ) → a ≤ n → a ≤ m → digits z f n a b ≡ digits z f m a b
  digits_bound zero zero zero b p q = refl
  digits_bound zero zero (suc m) b p q = refl
  digits_bound zero (suc n) zero b p q = refl
  digits_bound zero (suc n) (suc m) b p q = refl
  digits_bound (suc a) zero m b p q = absurd (omega arith)
  digits_bound (suc a) (suc n) zero b p q = absurd (omega arith)
  digits_bound (suc a) (suc n) (suc m) b p q =
      ap (λ (t : ℕ). t * 2 + f (suc a % 2) (b % 2))
        (digits_bound (suc a / 2) n m (b / 2) (omega arith) (omega arith))

differ_digits : (x y : ℕ) → x < 2 → y < 2 → differ x y ≡ (x + y) % 2
differ_digits zero y p q = omega arith
differ_digits (suc zero) zero p q = refl
differ_digits (suc zero) (suc zero) p q = refl
differ_digits (suc zero) (suc (suc y)) p q = absurd (omega arith)
differ_digits (suc (suc x)) y p q = absurd (omega arith)

pub zero-bit_xor : (b : ℕ) → bit_xor 0 b ≡ b
zero-bit_xor b = bit_xor-bitwise 0 b

-- The lowest digit, and the others.
pub bit_xor_step : (a b : ℕ) → bit_xor a b ≡ bit_xor (a / 2) (b / 2) * 2 + (a % 2 + b % 2) % 2
bit_xor_step zero b = omega (arith, zero-bit_xor b, zero-bit_xor (b / 2))
bit_xor_step (suc a) b = omega (
  arith,
  bit_xor-bitwise (suc a) b,
  bit_xor-bitwise (suc a / 2) (b / 2),
  differ_digits (suc a % 2) (b % 2) (omega arith) (omega arith),
  digits_bound (λ t. t) differ (suc a / 2) a (suc a / 2) (b / 2) (omega arith) (omega arith),
)

bit_xor-zero_fuel : (n a : ℕ) → a ≤ n → bit_xor a 0 ≡ a
bit_xor-zero_fuel n zero h = zero-bit_xor 0
bit_xor-zero_fuel zero (suc a) h = absurd (omega arith)
bit_xor-zero_fuel (suc n) (suc a) h =
    omega (arith, bit_xor_step (suc a) 0, bit_xor-zero_fuel n (suc a / 2) (omega arith))

pub bit_xor-zero : (a : ℕ) → bit_xor a 0 ≡ a
bit_xor-zero a = bit_xor-zero_fuel a a (omega arith)

bit_xor_comm_fuel : (n a b : ℕ) → a ≤ n → bit_xor a b ≡ bit_xor b a
bit_xor_comm_fuel n zero b h = omega (arith, zero-bit_xor b, bit_xor-zero b)
bit_xor_comm_fuel zero (suc a) b h = absurd (omega arith)
bit_xor_comm_fuel (suc n) (suc a) b h = omega (
  arith,
  bit_xor_step (suc a) b,
  bit_xor_step b (suc a),
  bit_xor_comm_fuel n (suc a / 2) (b / 2) (omega arith),
)

pub bit_xor_comm : (a b : ℕ) → bit_xor a b ≡ bit_xor b a
bit_xor_comm a b = bit_xor_comm_fuel a a b (omega arith)

bit_xor_cancel_fuel : (n a b c : ℕ) → a ≤ n → bit_xor a b ≡ bit_xor a c → b ≡ c
bit_xor_cancel_fuel n zero b c h e = omega (arith, zero-bit_xor b, zero-bit_xor c)
bit_xor_cancel_fuel zero (suc a) b c h e = absurd (omega arith)
bit_xor_cancel_fuel (suc n) (suc a) b c h e =
    let halves : b / 2 ≡ c / 2 =
      bit_xor_cancel_fuel n (suc a / 2) (b / 2) (c / 2) (omega arith)
        (omega (arith, bit_xor_step (suc a) b, bit_xor_step (suc a) c)) in
    omega (arith, bit_xor_step (suc a) b, bit_xor_step (suc a) c, ap (bit_xor (suc a / 2)) halves)

pub bit_xor_cancel_left : (a b c : ℕ) → bit_xor a b ≡ bit_xor a c → b ≡ c
bit_xor_cancel_left a b c = bit_xor_cancel_fuel a a b c (omega arith)

pub bit_xor_cancel_right : (a b c : ℕ) → bit_xor a c ≡ bit_xor b c → a ≡ b
bit_xor_cancel_right a b c e =
    bit_xor_cancel_left c a b (omega (arith, bit_xor_comm a c, bit_xor_comm b c))

-- Numbers of `k` digits below others: the digits do not meet.
pub bit_xor_fields :
    (k h h' l l' : ℕ)
    → l < 2 ^ k
    → l' < 2 ^ k
    → bit_xor (h * 2 ^ k + l) (h' * 2 ^ k + l') ≡ bit_xor h h' * 2 ^ k + bit_xor l l'
bit_xor_fields zero h h' zero zero p q =
    let e : h * 1 + 0 ≡ h = omega arith in
    let e' : h' * 1 + 0 ≡ h' = omega arith in rw (e, e') (omega (arith, zero-bit_xor 0))
bit_xor_fields zero h h' (suc l) l' p q = absurd (omega arith)
bit_xor_fields zero h h' l (suc l') p q = absurd (omega arith)
bit_xor_fields (suc k) h h' l l' p q =
    let w : ℕ = 2 ^ k in
    let even : (x y : ℕ) → x * 2 ^ suc k + y ≡ 2 * (x * w) + y =
      λ x y. omega (arith, ap (λ (t : ℕ). x * t) (pow-suc 2 k)) in
    let half : (x y : ℕ) → (x * 2 ^ suc k + y) / 2 ≡ x * w + y / 2 =
      λ x y. omega (arith, even x y) in
    let odd : (x y : ℕ) → (x * 2 ^ suc k + y) % 2 ≡ y % 2 = λ x y. omega (arith, even x y) in
    let ih : bit_xor (h * w + l / 2) (h' * w + l' / 2)
        ≡ bit_xor h h' * w + bit_xor (l / 2) (l' / 2) =
      bit_xor_fields k h h' (l / 2) (l' / 2) (omega (arith, pow-suc 2 k))
        (omega (arith, pow-suc 2 k)) in
    bit_xor_step (h * 2 ^ suc k + l) (h' * 2 ^ suc k + l')
    ∙ rw (half h l, half h' l', odd h l, odd h' l', ih)
        (omega (arith, bit_xor_step l l', ap (λ (t : ℕ). bit_xor h h' * t) (pow-suc 2 k)))

pub bit_xor-lt : (k a b : ℕ) → a < 2 ^ k → b < 2 ^ k → bit_xor a b < 2 ^ k
bit_xor-lt zero zero zero p q = omega (arith, zero-bit_xor 0)
bit_xor-lt zero zero (suc b) p q = absurd (omega arith)
bit_xor-lt zero (suc a) b p q = absurd (omega arith)
bit_xor-lt (suc k) a b p q = omega (
  arith,
  pow-suc 2 k,
  bit_xor_step a b,
  bit_xor-lt k (a / 2) (b / 2) (omega (arith, pow-suc 2 k)) (omega (arith, pow-suc 2 k)),
)

bit_xor_assoc_bound : (n a b c : ℕ) → a ≤ n → bit_xor (bit_xor a b) c ≡ bit_xor a (bit_xor b c)
bit_xor_assoc_bound n zero b c h =
    ap (λ (t : ℕ). bit_xor t c) (zero-bit_xor b) ∙ omega (arith, zero-bit_xor (bit_xor b c))
bit_xor_assoc_bound zero (suc a) b c h = absurd (omega arith)
bit_xor_assoc_bound (suc n) (suc a) b c h =
    let left : bit_xor (suc a) b / 2 ≡ bit_xor (suc a / 2) (b / 2) =
      omega (arith, bit_xor_step (suc a) b) in
    let right : bit_xor b c / 2 ≡ bit_xor (b / 2) (c / 2) = omega (arith, bit_xor_step b c) in
    omega (
      arith,
      bit_xor_step (bit_xor (suc a) b) c,
      bit_xor_step (suc a) (bit_xor b c),
      bit_xor_step (suc a) b,
      bit_xor_step b c,
      ap (λ (t : ℕ). bit_xor t (c / 2)) left,
      ap (bit_xor (suc a / 2)) right,
      bit_xor_assoc_bound n (suc a / 2) (b / 2) (c / 2) (omega arith),
    )

pub bit_xor_assoc : (a b c : ℕ) → bit_xor (bit_xor a b) c ≡ bit_xor a (bit_xor b c)
bit_xor_assoc a b c = bit_xor_assoc_bound a a b c (omega arith)

bit_and_step : (a b : ℕ) → bit_and a b ≡ bit_and (a / 2) (b / 2) * 2 + min (a % 2) (b % 2)
bit_and_step zero b = omega (arith, bit_and-bitwise 0 b, bit_and-bitwise 0 (b / 2))
bit_and_step (suc a) b = omega (
  arith,
  bit_and-bitwise (suc a) b,
  bit_and-bitwise (suc a / 2) (b / 2),
  digits_bound (λ t. 0) min (suc a / 2) a (suc a / 2) (b / 2) (omega arith) (omega arith),
)

bit_and-zero_bound : (n a : ℕ) → a ≤ n → bit_and a 0 ≡ 0
bit_and-zero_bound n zero h = bit_and-bitwise 0 0
bit_and-zero_bound zero (suc a) h = absurd (omega arith)
bit_and-zero_bound (suc n) (suc a) h =
    omega (arith, bit_and_step (suc a) 0, bit_and-zero_bound n (suc a / 2) (omega arith))

-- The mask of one digit reads that digit.
pub bit_and_digit : (k h l : ℕ) → l < 2 ^ k → bit_and (h * 2 ^ k + l) (2 ^ k) ≡ h % 2 * 2 ^ k
bit_and_digit zero h zero p =
    let e : h * 1 + 0 ≡ h = omega arith in
    rw e (omega (arith, bit_and_step h 1, bit_and-zero_bound (h / 2) (h / 2) (omega arith)))
bit_and_digit zero h (suc l) p = absurd (omega arith)
bit_and_digit (suc k) h l p =
    let w : ℕ = 2 ^ k in
    let mask : 2 ^ suc k ≡ 2 * w = omega (arith, pow-suc 2 k) in
    let num : h * 2 ^ suc k + l ≡ 2 * (h * w) + l =
      omega (arith, ap (λ (t : ℕ). h * t) (pow-suc 2 k)) in
    let half : (h * 2 ^ suc k + l) / 2 ≡ h * w + l / 2 = omega (arith, num) in
    let half_mask : 2 ^ suc k / 2 ≡ w = omega (arith, mask) in
    let ih : bit_and (h * w + l / 2) w ≡ h % 2 * w =
      bit_and_digit k h (l / 2) (omega (arith, mask)) in
    bit_and_step (h * 2 ^ suc k + l) (2 ^ suc k)
    ∙ rw (half, half_mask, ih) (omega (arith, mask, ap (λ (t : ℕ). h % 2 * t) mask))

bit_xor_self_fuel : (n a : ℕ) → a ≤ n → bit_xor a a ≡ 0
bit_xor_self_fuel n zero h = zero-bit_xor zero
bit_xor_self_fuel zero (suc a) h = absurd (omega arith)
bit_xor_self_fuel (suc n) (suc a) h =
    omega (arith, bit_xor_step (suc a) (suc a), bit_xor_self_fuel n (suc a / 2) (omega arith))

pub bit_xor_self : (a : ℕ) → bit_xor a a ≡ 0
bit_xor_self a = bit_xor_self_fuel a a (omega arith)
