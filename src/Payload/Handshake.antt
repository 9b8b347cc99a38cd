-- ===== src/Payload/Handshake.antt =====
-- internal/msg/payload.go: the handshake payload.
pub mod Laws
use lepg.Base.{ℕ, ◌+◌, ◌%◌, ◌∷◌, ◌++◌, Bytes, length, ltb, leb, if◌then◌else◌}
use lepg.Errors.{
  Result, ok, err, sn_too_long, token_too_long, payload_too_short, invalid_sn_length,
  missing_token_length, invalid_token_length,
}
use lepg.Wire.{at, slice}

pub record HandshakePayload : Type 0 where
  pub firmware_version : ℕ
  pub sn : Bytes
  pub token : Bytes

unfoldable pub encode : HandshakePayload → Result Bytes
encode p =
    if ltb 255 (length p.sn)
    then err (sn_too_long (length p.sn))
    else if ltb 255 (length p.token)
    then err (token_too_long (length p.token))
    else ok
        (p.firmware_version ∷ (length p.sn % 256) ∷ (p.sn ++ ((length p.token % 256) ∷ p.token)))

-- `Decode` once the serial number is read; `offset` stands behind it.
unfoldable pub decode_token : Bytes → ℕ → Bytes → Result HandshakePayload
decode_token input offset sn =
    if leb (length input) offset
    then err missing_token_length
    else let token_len = at input offset in
      let start = offset + 1 in
      if ltb (length input) (start + token_len)
      then err (invalid_token_length token_len)
      else ok (record {
        firmware_version = at input 0;
        sn = sn;
        token = slice input start (start + token_len);
      })

unfoldable pub decode : Bytes → Result HandshakePayload
decode input =
    if ltb (length input) 3
    then err (payload_too_short (length input))
    else let sn_len = at input 1 in
      if ltb (length input) (2 + sn_len)
      then err (invalid_sn_length sn_len)
      else decode_token input (2 + sn_len) (slice input 2 (2 + sn_len))
