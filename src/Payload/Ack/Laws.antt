-- ===== src/Payload/Ack/Laws.antt =====
-- The payload of an acknowledgement read back, and what its decoder accepts.
use lepg.Base.{◌<◌, ◌≡◌, refl, arith, [], ◌∷◌, ◌++◌, Bytes, IsBytes}
use lepg.Errors.{ok}
use lepg.Payload.Ack.{AckPayload, encode, decode}

-- `Decode` reads back what `Encode` wrote for a 16-bit message id, whatever follows it.
pub decode-encode_ack :
    (p : AckPayload) (rest bs : Bytes)
    → p.msg_id < 65536
    → encode p ≡ ok bs
    → decode (bs ++ rest) ≡ ok p
unfolding encode decode
decode-encode_ack p rest bs h e = ground arith

-- `Decode` accepts a byte string only if it begins with the very encoding of the payload that it
-- returns.
pub decode-eq-ok_ack :
    (input : Bytes) (p : AckPayload)
    → IsBytes input
    → decode input ≡ ok p
    → (bs : Bytes) × (rest : Bytes) × (encode p ≡ ok bs) × (input ≡ bs ++ rest)
unfolding encode decode
decode-eq-ok_ack (a ∷ b ∷ c ∷ rest) p h e = (a ∷ b ∷ c ∷ [], rest, ground arith, refl)
decode-eq-ok_ack _ p h e = ground arith
