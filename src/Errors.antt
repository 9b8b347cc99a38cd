-- ===== src/Errors.antt =====
-- The errors of the program as values (internal/errors/errors.go, and the messages that the
-- functions of internal/msg, internal/client and internal/server build), and Go's pair of a value
-- and an error as a sum.
use lepg.Base.{ℕ, Bytes, ◌≡◌, refl}

pub data Error : Type 0 where
  -- internal/errors/errors.go
  invalid_magic checksum_mismatch payload_too_large handshake_rejected : Error
  -- io.EOF, io.ErrUnexpectedEOF, a read deadline that passed, a failed write
  eof unexpected_eof timeout write_failed : Error
  -- internal/msg
  unknown_packet_type : Error
  sn_too_long token_too_long device_hash_too_long message_too_long string_field_too_long : ℕ → Error
  payload_too_short invalid_sn_length invalid_token_length invalid_device_hash_length : ℕ → Error
  invalid_message_length invalid_raw_data_length invalid_reading_count not_empty : ℕ → Error
  missing_token_length truncated_string_length truncated_string : Error
  truncated_id truncated_quality truncated_timestamp truncated_raw_data_length : Error
  -- internal/server and internal/client
  unexpected_type : ℕ → Error
  unexpected_payload store_failed canceled : Error
  unknown_sn token_mismatch : Bytes → Error

-- `nil` and a value, or an error.
pub data Result {κ} (T : Type κ) : Type κ where
  err : Error → Result T
  ok : T → Result T

-- `if err != nil { return nil, err }`, and what follows it.
infixl 5 ◌>>=◌
abbrev pub ◌>>=◌ {ℓ κ} : {A : Type ℓ} {B : Type κ} (r : Result A) (next : A → Result B) → Result B
err x >>= next = err x
ok value >>= next = next value

-- Inversion of a successful sequence.
pub >>=-eq-ok {ℓ κ} :
    {A : Type ℓ} {B : Type κ} (r : Result A) (next : A → Result B) {out : B}
    → (r >>= next) ≡ ok out
    → (value : A) × (r ≡ ok value) × (next value ≡ ok out)
>>=-eq-ok (err x) next e = cc
>>=-eq-ok (ok value) next e = (value, refl, e)

pub ok-injective {ℓ} : {A : Type ℓ} (a b : A) → ok a ≡ ok b → a ≡ b
ok-injective a b e = cc

-- The same, handed on: the value stays a variable.
pub after_ok {ℓ κ μ} :
    {A : Type ℓ} {B : Type κ} {P : Type μ} (m : Result A) (f : A → Result B) {b : B}
    → (m >>= f) ≡ ok b
    → ((a : A) → m ≡ ok a → f a ≡ ok b → P)
    → P
after_ok (ok a) f h k = k a refl h
after_ok (err e) f h k = absurd (cc)
