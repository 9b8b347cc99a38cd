-- ===== src/Wire/Rest.antt =====
-- What is left of a byte string at an offset, and what a decoder reads there.
use lepg.Base.{ℕ, ◌+◌, ◌-◌, ◌/◌, ◌%◌, ◌^◌, ◌<◌, ◌≤◌, ◌≡◌, refl, ap, ◌∙◌, arith, ◌++◌}
use lepg.Base.{
  Bytes, length, drop, take_front, drop_front, length-append, length-drop, length-take,
  take-append-drop,
}
use lepg.Wire.{put_uint16, put_uint32, put_uint64, at, uint16_at, uint32_at, uint64_at, slice}
use lepg.Wire.Laws.{at-drop, drop-drop}

pub record Rest (input : Bytes) (off : ℕ) (left : Bytes) : Type 0 where
  pub inside : off ≤ length input
  pub left_there : drop off input ≡ left

pub Rest-whole : (input : Bytes) → Rest input 0 input
Rest-whole input = record { inside = omega arith; left_there = refl }

pub Rest-inside : (input : Bytes) (off : ℕ) → off ≤ length input → Rest input off (drop off input)
Rest-inside input off h = record { inside = h; left_there = refl }

module _ (input : Bytes) (off : ℕ) where
  pub Rest-length : {left : Bytes} → Rest input off left → off + length left ≡ length input
  Rest-length r = omega (arith, r.inside, ap length r.left_there, length-drop off input)

  pub Rest-at : {left : Bytes} (k : ℕ) → Rest input off left → at input (off + k) ≡ at left k
  Rest-at k r = at-drop off k input ∙ ap (λ (t : Bytes). at t k) r.left_there

  pub Rest-first : {left : Bytes} → Rest input off left → at input off ≡ at left 0
  Rest-first r = let z : off + 0 ≡ off = omega arith in rw z at (Rest-at 0 r)

  pub Rest-behind :
      (n : ℕ) (xs ys : Bytes) → n ≡ length xs → Rest input off (xs ++ ys) → Rest input (off + n) ys
  Rest-behind n xs ys e r = record {
    inside = omega (arith, Rest-length r, length-append xs ys);
    left_there = drop-drop off n input ∙ ap (drop n) r.left_there ∙ drop_front n xs ys e;
  }

  pub Rest-slice :
      (n : ℕ) (xs ys : Bytes)
      → n ≡ length xs
      → Rest input off (xs ++ ys)
      → slice input off (off + n) ≡ xs
  Rest-slice n xs ys e r =
      let width : off + n - off ≡ n = omega arith in rw (width, r.left_there) (take_front n xs ys e)

  pub Rest-uint16 :
      (v : ℕ) (ys : Bytes)
      → v < 65536
      → Rest input off (put_uint16 v ++ ys)
      → uint16_at input off ≡ v
  Rest-uint16 v ys h r = omega (arith, Rest-first r, Rest-at 1 r)

  pub Rest-uint32 :
      (v : ℕ) (ys : Bytes)
      → v < 2 ^ 32
      → Rest input off (put_uint32 v ++ ys)
      → uint32_at input off ≡ v
  Rest-uint32 v ys h r = omega (arith, Rest-first r, Rest-at 1 r, Rest-at 2 r, Rest-at 3 r)

  -- Without knowing what stands there: what a slice takes and what it leaves.
  pub slice-drop : (n : ℕ) → slice input off (off + n) ++ drop (off + n) input ≡ drop off input
  slice-drop n =
      let width : off + n - off ≡ n = omega arith in
      rw (width, drop-drop off n input) (take-append-drop n (drop off input))

  pub length-slice : (n : ℕ) → off + n ≤ length input → length (slice input off (off + n)) ≡ n
  length-slice n h =
      let width : off + n - off ≡ n = omega arith in
      rw width (omega (arith, length-take n (drop off input), length-drop off input))

pub Rest-uint64 :
    (input : Bytes) (off v : ℕ) (ys : Bytes)
    → v < 2 ^ 64
    → Rest input off (put_uint64 v ++ ys)
    → uint64_at input off ≡ v
Rest-uint64 input off v ys h r =
    let high =
      Rest-uint32 input off (v / 4294967296) (put_uint32 (v % 4294967296) ++ ys) (omega arith) r in
    let low = Rest-uint32 input (off + 4) (v % 4294967296) ys (omega arith) (
      Rest-behind input off 4 (put_uint32 (v / 4294967296)) (put_uint32 (v % 4294967296) ++ ys) refl
        r) in
    omega (arith, high, low)
