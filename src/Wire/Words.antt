-- ===== src/Wire/Words.antt =====
-- The integer that stands at an offset, written again, is the bytes that stand there.
use lepg.Base.{
  ℕ, ◌+◌, ◌/◌, ◌%◌, ◌^◌, ◌<◌, ◌≤◌, ◌≡◌, ap, sym, ◌∙◌, arith, ◌∷◌, ◌++◌, Bytes, IsBytes, length,
  drop,
}
use lepg.Wire.{put_uint16, put_uint32, put_uint64, at, uint16_at, uint32_at, uint64_at}
use lepg.Wire.Laws.{byte_at, drop-at}

module _ (input : Bytes) (h : IsBytes input) where
  two_bytes :
      (off : ℕ)
      → off + 2 ≤ length input
      → drop off input ≡ at input off ∷ at input (off + 1) ∷ drop (off + 2) input
  two_bytes off fits =
      let next : off + 1 + 1 ≡ off + 2 = omega arith in
      drop-at off input (omega arith)
      ∙ ap (◌∷◌ (at input off)) (
          drop-at (off + 1) input (omega arith)
          ∙ ap (λ (t : ℕ). at input (off + 1) ∷ drop t input) next)

  pub put_uint16-drop :
      (off : ℕ)
      → off + 2 ≤ length input
      → drop off input ≡ put_uint16 (uint16_at input off) ++ drop (off + 2) input
  put_uint16-drop off fits =
      let a = byte_at input off h in
      let b = byte_at input (off + 1) h in
      let high : uint16_at input off / 256 % 256 ≡ at input off = omega arith in
      let low : uint16_at input off % 256 ≡ at input (off + 1) = omega arith in
      two_bytes off fits ∙ λ i. sym high i ∷ sym low i ∷ drop (off + 2) input

  pub uint32_at-lt : (off : ℕ) → uint32_at input off < 4294967296
  uint32_at-lt off = omega (
    arith,
    byte_at input off h,
    byte_at input (off + 1) h,
    byte_at input (off + 2) h,
    byte_at input (off + 3) h,
  )

  pub put_uint32-drop :
      (off : ℕ)
      → off + 4 ≤ length input
      → drop off input ≡ put_uint32 (uint32_at input off) ++ drop (off + 4) input
  put_uint32-drop off fits =
      let a = byte_at input off h in
      let b = byte_at input (off + 1) h in
      let c = byte_at input (off + 2) h in
      let d = byte_at input (off + 3) h in
      let third : off + 2 + 1 ≡ off + 3 = omega arith in
      let fourth : off + 2 + 2 ≡ off + 4 = omega arith in
      let e0 : uint32_at input off / 16777216 % 256 ≡ at input off = omega arith in
      let e1 : uint32_at input off / 65536 % 256 ≡ at input (off + 1) = omega arith in
      let e2 : uint32_at input off / 256 % 256 ≡ at input (off + 2) = omega arith in
      let e3 : uint32_at input off % 256 ≡ at input (off + 3) = omega arith in
      two_bytes off (omega arith)
      ∙ ap (λ (t : Bytes). at input off ∷ at input (off + 1) ∷ t)
          (two_bytes (off + 2) (omega arith) ∙ λ i.
            at input (off + 2) ∷ at input (third i) ∷ drop (fourth i) input)
      ∙ λ i. sym e0 i ∷ sym e1 i ∷ sym e2 i ∷ sym e3 i ∷ drop (off + 4) input

  pub uint64_at-lt : (off : ℕ) → uint64_at input off < 2 ^ 64
  uint64_at-lt off = omega (arith, uint32_at-lt off, uint32_at-lt (off + 4))

  pub put_uint64-drop :
      (off : ℕ)
      → off + 8 ≤ length input
      → drop off input ≡ put_uint64 (uint64_at input off) ++ drop (off + 8) input
  put_uint64-drop off fits =
      let low = uint32_at-lt (off + 4) in
      let next : off + 4 + 4 ≡ off + 8 = omega arith in
      let high : uint64_at input off / 4294967296 ≡ uint32_at input off = omega arith in
      let rest : uint64_at input off % 4294967296 ≡ uint32_at input (off + 4) = omega arith in
      put_uint32-drop off (omega arith)
      ∙ ap (◌++◌ (put_uint32 (uint32_at input off))) (
          put_uint32-drop (off + 4) (omega arith) ∙ λ i.
          put_uint32 (uint32_at input (off + 4)) ++ drop (next i) input)
      ∙ λ i. put_uint32 (sym high i) ++ (put_uint32 (sym rest i) ++ drop (off + 8) input)
