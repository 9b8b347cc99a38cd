-- ===== src/Config/ValidationError.antt =====
-- The errors that the validations return (`ValidationError`, and `fmt.Errorf`), kept as values: the
-- text is what `Error()` prints. `nil` is `none`.
use lepg.Base.{
  ℕ, zero, suc, ◌+◌, ◌/◌, ◌%◌, Bytes, codes, List, [], ◌∷◌, ◌++◌, Option, none, some, Bool, true,
  false, ltb, leb, if◌then◌else◌, bytes_eq, ◌&&◌, ◌||◌, ◌≡◌, refl, ap,
}

pub data ConfigError : Type 0 where
  -- `&ValidationError{Field, Message}`
  field_error : Bytes → Bytes → ConfigError
  -- `fmt.Errorf` of a text
  text_error : Bytes → ConfigError
  -- `fmt.Errorf("prefix[%d]suffix%w", i, err)`
  at_index : Bytes → ℕ → Bytes → ConfigError → ConfigError

-- `%d`
decimal_from : ℕ → ℕ → Bytes
decimal_from zero n = []
decimal_from (suc fuel) n =
    let front = decimal_from fuel (n / 10) in
    if ltb n 10 then (48 + n) ∷ [] else front ++ (48 + n % 10) ∷ []

-- A number has at most as many digits as it counts, and one.
unfoldable pub decimal : ℕ → Bytes
unfolding decimal_from
decimal n = decimal_from (suc n) n

-- `Error()`
unfoldable pub error_text : ConfigError → Bytes
error_text (field_error name message) = name ++ (codes ": " ++ message)
error_text (text_error message) = message
error_text (at_index before i after e) =
    before ++ (codes "[" ++ (decimal i ++ (codes "]" ++ (after ++ error_text e))))

-- `string(r)`: UTF-8. A number that is no code point becomes U+FFFD.
unfoldable pub rune_text : ℕ → Bytes
rune_text r =
    if ltb r 0x80
    then r ∷ []
    else if ltb r 0x800
    then (192 + r / 64) ∷ (128 + r % 64) ∷ []
    else if ltb 0x10ffff r || (leb 0xd800 r && leb r 0xdfff)
    then 0xef ∷ 0xbf ∷ 0xbd ∷ []
    else if ltb r 0x10000
    then (224 + r / 4096) ∷ (128 + r / 64 % 64) ∷ (128 + r % 64) ∷ []
    else (240 + r / 262144) ∷ (128 + r / 4096 % 64) ∷ (128 + r / 64 % 64) ∷ (128 + r % 64) ∷ []

-- `s == ""`
abbrev pub is_empty : Bytes → Bool
is_empty [] = true
is_empty (_ ∷ _) = false

-- `seen[name]`, for the names seen so far
unfoldable pub seen : Bytes → List Bytes → Bool
seen name [] = false
seen name (n ∷ names) = if bytes_eq n name then true else seen name names

-- What a validation answers: the error, and the value with what the validation filled in.
module _ {ℓ} {A : Type ℓ} where
  -- A check that refuses, and a check that goes on, of a validation that accepted.
  pub passed_unless :
      (b : Bool) (e : ConfigError) (p : A) {q : A} {rest : Option ConfigError × A}
      → (if b then (some e, p) else rest) ≡ (none, q)
      → (b ≡ false) × (rest ≡ (none, q))
  passed_unless true e p h = absurd (cc (ap (λ (v : Option ConfigError × A). v.0) h))
  passed_unless false e p h = (refl, h)

  pub passed_if :
      (b : Bool) (e : ConfigError) (p : A) {q : A} {rest : Option ConfigError × A}
      → (if b then rest else (some e, p)) ≡ (none, q)
      → (b ≡ true) × (rest ≡ (none, q))
  passed_if true e p h = (refl, h)
  passed_if false e p h = absurd (cc (ap (λ (v : Option ConfigError × A). v.0) h))
