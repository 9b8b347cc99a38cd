-- ===== src/Payload/Handshake/Laws.antt =====
-- The handshake payload read back, and what its decoder accepts.
use lepg.Base.{ℕ, ◌+◌, ◌<◌, ◌≤◌, ◌≡◌, refl, ap, sym, ◌∙◌, arith, [], ◌∷◌, ◌++◌, append_assoc}
use lepg.Base.{Bytes, IsBytes, length, drop, le→not_ltb, lt→not_leb, length-append}
use lepg.Errors.{ok}
use lepg.Wire.{at, slice}
use lepg.Wire.Laws.{byte_at, drop-at}
use lepg.Wire.Rest.{
  Rest, Rest-length, Rest-at, Rest-first, Rest-behind, Rest-slice, slice-drop, length-slice,
}
use lepg.Payload.Handshake.{HandshakePayload, encode, decode, decode_token}

-- `Encode` succeeds exactly on short strings, and writes each behind its length.
pub encode-eq-ok_handshake :
    (p : HandshakePayload) (bs : Bytes)
    → encode p ≡ ok bs
    → (length p.sn ≤ 255)
      × (length p.token ≤ 255)
      × (bs ≡ p.firmware_version ∷ length p.sn ∷ (p.sn ++ (length p.token ∷ p.token)))
unfolding encode
encode-eq-ok_handshake p bs e = ground arith

decode_token-wire :
    (p : HandshakePayload) (input : Bytes) (off : ℕ) (rest : Bytes)
    → at input 0 ≡ p.firmware_version
    → Rest input off (length p.token ∷ (p.token ++ rest))
    → decode_token input off p.sn ≡ ok p
unfolding decode_token
decode_token-wire p input off rest first r =
    let k : ℕ = length p.token in
    let text = Rest-behind input off 1 (k ∷ []) (p.token ++ rest) refl r in
    let size = Rest-length input off r in
    let len : at input off ≡ k = Rest-first input off r in
    let room : k ≤ length (p.token ++ rest) = omega (arith, length-append p.token rest) in
    rw (
      lt→not_leb (length input) off (omega arith),
      len,
      le→not_ltb (length input) (off + 1 + k) (omega arith),
      first,
      Rest-slice input (off + 1) k p.token rest refl text,
    )

-- `Decode` reads back what `Encode` wrote, whatever follows it.
pub decode-encode_handshake :
    (p : HandshakePayload) (rest bs : Bytes) → encode p ≡ ok bs → decode (bs ++ rest) ≡ ok p
unfolding decode
decode-encode_handshake p rest bs e =
    let (short_sn, short_token, bytes) = encode-eq-ok_handshake p bs e in
    let n : ℕ = length p.sn in
    let tail : Bytes = length p.token ∷ (p.token ++ rest) in
    let input : Bytes = bs ++ rest in
    let whole : Rest input 0 (p.firmware_version ∷ n ∷ (p.sn ++ tail)) = record {
      inside = omega arith;
      left_there =
          ap (λ (t : Bytes). t ++ rest) bytes
          ∙ ap (λ (t : Bytes). p.firmware_version ∷ n ∷ t)
              (append_assoc p.sn (length p.token ∷ p.token) rest);
    } in
    let at_sn = Rest-behind input 0 2 (p.firmware_version ∷ n ∷ []) (p.sn ++ tail) refl whole in
    let at_token = Rest-behind input 2 n p.sn tail refl at_sn in
    let len : at input 1 ≡ n = Rest-at input 0 1 whole in
    let size = Rest-length input (2 + n) at_token in
    rw
      (
        le→not_ltb (length input) 3 (omega arith),
        len,
        le→not_ltb (length input) (2 + n) (omega arith),
        Rest-slice input 2 n p.sn tail refl at_sn,
      )
      (decode_token-wire p input (2 + n) rest (Rest-first input 0 whole) at_token)

-- What a successful `Decode` has checked, and the payload that it returns.
decode_facts :
    (input : Bytes) (p : HandshakePayload)
    → decode input ≡ ok p
    → (2 + at input 1 < length input)
      × (2 + at input 1 + 1 + at input (2 + at input 1) ≤ length input)
      × (p.firmware_version ≡ at input 0)
      × (p.sn ≡ slice input 2 (2 + at input 1))
      × (p.token
          ≡ slice input (2 + at input 1 + 1) (2 + at input 1 + 1 + at input (2 + at input 1)))
unfolding decode decode_token
decode_facts input p e = ground arith

encode_short :
    (p : HandshakePayload)
    → length p.sn ≤ 255
    → length p.token ≤ 255
    → encode p ≡ ok (p.firmware_version ∷ length p.sn ∷ (p.sn ++ (length p.token ∷ p.token)))
unfolding encode
encode_short p h k = ground arith

-- `Decode` accepts a byte string only if it begins with the very encoding of the payload that it
-- returns.
pub decode-eq-ok_handshake :
    (input : Bytes) (p : HandshakePayload)
    → IsBytes input
    → decode input ≡ ok p
    → (bs : Bytes) × (rest : Bytes) × (encode p ≡ ok bs) × (input ≡ bs ++ rest)
decode-eq-ok_handshake input p h e =
    let n : ℕ = at input 1 in
    let k : ℕ = at input (2 + n) in
    let (room_sn, room_token, first, sn, token) = decode_facts input p e in
    let n_len : length p.sn ≡ n = ap length sn ∙ length-slice input 2 n (omega arith) in
    let k_len : length p.token ≡ k =
      ap length token ∙ length-slice input (2 + n + 1) k room_token in
    let rest : Bytes = drop (2 + n + 1 + k) input in
    let from_token : drop (2 + n) input ≡ k ∷ (p.token ++ rest) =
      drop-at (2 + n) input room_sn
      ∙ ap (◌∷◌ k)
          (sym (slice-drop input (2 + n + 1) k) ∙ ap (λ (t : Bytes). t ++ rest) (sym token)) in
    let from_sn : drop 2 input ≡ p.sn ++ (k ∷ (p.token ++ rest)) =
      sym (slice-drop input 2 n)
      ∙ ap (λ (t : Bytes). t ++ drop (2 + n) input) (sym sn)
      ∙ ap (◌++◌ p.sn) from_token in
    let all : input ≡ at input 0 ∷ n ∷ (p.sn ++ (k ∷ (p.token ++ rest))) =
      drop-at 0 input (omega arith)
      ∙ ap (◌∷◌ (at input 0)) (drop-at 1 input (omega arith) ∙ ap (◌∷◌ n) from_sn) in
    (
      p.firmware_version ∷ length p.sn ∷ (p.sn ++ (length p.token ∷ p.token)),
      rest,
      encode_short p (omega (arith, n_len, byte_at input 1 h))
          (omega (arith, k_len, byte_at input (2 + n) h)),
      all ∙ rw (first, n_len, k_len, append_assoc),
    )
