-- ===== src/Payload/Ack.antt =====
-- internal/msg/payload.go: the payload of an acknowledgement.
pub mod Laws
use lepg.Base.{ℕ, ◌+◌, [], ◌∷◌, ◌++◌, Bytes, length, ltb, if◌then◌else◌}
use lepg.Errors.{Result, ok, err, payload_too_short}
use lepg.Wire.{put_uint16, at, uint16_at}

pub record AckPayload : Type 0 where
  pub msg_id : ℕ
  pub code : ℕ

unfoldable pub encode : AckPayload → Result Bytes
encode p = ok (put_uint16 p.msg_id ++ (p.code ∷ []))

unfoldable pub decode : Bytes → Result AckPayload
decode input =
    if ltb (length input) 3
    then err (payload_too_short (length input))
    else ok (record { msg_id = uint16_at input 0; code = at input 2 })
