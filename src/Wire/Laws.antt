-- ===== src/Wire/Laws.antt =====
-- Integers and slices read back from where they were written.
use lepg.Base.{ℕ, zero, suc, ◌+◌, ◌-◌, ◌<◌, ◌≡◌, refl, arith, [], ◌∷◌, ◌++◌}
use lepg.Base.{Bytes, IsBytes, length, drop, take_front, drop_front}
use lepg.Wire.{put_uint16, put_uint32, at, uint16_at, slice}

pub put_uint16-IsBytes : (v : ℕ) → IsBytes (put_uint16 v)
put_uint16-IsBytes v = omega arith

pub put_uint32-IsBytes : (v : ℕ) → IsBytes (put_uint32 v)
put_uint32-IsBytes v = omega arith

-- The element behind a front of `n`, and one `k` places further.
pub at_front : (n k : ℕ) (xs ys : Bytes) → n ≡ length xs → at (xs ++ ys) (n + k) ≡ at ys k
at_front zero k [] ys e = let z : 0 + k ≡ k = omega arith in rw z refl
at_front zero k (x ∷ xs) ys e = absurd (omega arith)
at_front (suc n) k [] ys e = absurd (omega arith)
at_front (suc n) k (x ∷ xs) ys e =
    let s : suc n + k ≡ suc (n + k) = omega arith in rw s (at_front n k xs ys (omega arith))

pub slice_front :
    (lo hi : ℕ) (xs ys zs : Bytes)
    → lo ≡ length xs
    → hi ≡ lo + length ys
    → slice (xs ++ (ys ++ zs)) lo hi ≡ ys
slice_front lo hi xs ys zs e e' =
    rw (drop_front lo xs (ys ++ zs) e) (take_front (hi - lo) ys zs (omega arith))

pub at_front_zero : (n : ℕ) (xs ys : Bytes) → n ≡ length xs → at (xs ++ ys) n ≡ at ys 0
at_front_zero n xs ys e = let z : n + 0 ≡ n = omega arith in rw z at (at_front n 0 xs ys e)

pub uint16_at_front :
    (n v : ℕ) (xs ys : Bytes)
    → n ≡ length xs
    → v < 65536
    → uint16_at (xs ++ (put_uint16 v ++ ys)) n ≡ v
uint16_at_front n v xs ys e h =
    omega (arith, at_front_zero n xs (put_uint16 v ++ ys) e, at_front n 1 xs (put_uint16 v ++ ys) e)

-- Places counted from an offset.
pub at-drop : (n k : ℕ) (xs : Bytes) → at xs (n + k) ≡ at (drop n xs) k
at-drop zero k xs = let z : 0 + k ≡ k = omega arith in rw z refl
at-drop (suc n) k [] = refl
at-drop (suc n) k (x ∷ xs) = let s : suc n + k ≡ suc (n + k) = omega arith in rw s (at-drop n k xs)

pub drop-drop : (n k : ℕ) (xs : Bytes) → drop (n + k) xs ≡ drop k (drop n xs)
drop-drop zero k xs = let z : 0 + k ≡ k = omega arith in rw z refl
drop-drop (suc n) zero [] = let s : suc n + 0 ≡ suc n = omega arith in rw s refl
drop-drop (suc n) (suc k) [] = let s : suc n + suc k ≡ suc (n + suc k) = omega arith in rw s refl
drop-drop (suc n) k (x ∷ xs) =
    let s : suc n + k ≡ suc (n + k) = omega arith in rw s (drop-drop n k xs)

-- Every place of a byte string reads as a byte.
pub byte_at : (xs : Bytes) (i : ℕ) → IsBytes xs → at xs i < 256
byte_at [] i h = omega arith
byte_at (x ∷ xs) zero h = h.0
byte_at (x ∷ xs) (suc i) h = byte_at xs i h.1

pub drop-at : (off : ℕ) (xs : Bytes) → off < length xs → drop off xs ≡ at xs off ∷ drop (off + 1) xs
drop-at zero [] h = absurd (omega arith)
drop-at zero (x ∷ xs) h = refl
drop-at (suc off) [] h = absurd (omega arith)
drop-at (suc off) (x ∷ xs) h =
    let s : suc off + 1 ≡ suc (off + 1) = omega arith in rw s (drop-at off xs (omega arith))
