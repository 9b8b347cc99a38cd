-- ===== src/Broker/Text.antt =====
-- What internal/client/mqtt.go uses of package strings, on bytes in UTF-8: `TrimSpace`, `Split` and
-- `SplitN` at one character, `EqualFold` with "ts".
use lepg.Base.{
  ℕ, zero, suc, Bytes, Bool, false, ◌&&◌, ◌||◌, List, [], ◌∷◌, drop, length, Option, none, some,
  leb, ◌==◌, if◌then◌else◌,
}
use mathlib.Core.List.{reverse}

-- The bytes of the white space at the front, 0 where there is none (`unicode.IsSpace`).
abbrev ascii_space : ℕ → Bool
ascii_space c = c == 32 || (leb 9 c && leb c 13)

abbrev two_space : ℕ → ℕ → Bool
two_space a b = a == 0xc2 && (b == 0x85 || b == 0xa0)

abbrev three_space : ℕ → ℕ → ℕ → Bool
three_space a b c =
    (a == 0xe1 && (b == 0x9a && c == 0x80))
    || (a == 0xe2
        && ((b == 0x80 && ((leb 0x80 c && leb c 0x8a) || (c == 0xa8 || (c == 0xa9 || c == 0xaf))))
            || (b == 0x81 && c == 0x9f)))
    || (a == 0xe3 && (b == 0x80 && c == 0x80))

unfoldable pub space_length : Bytes → ℕ
space_length [] = 0
space_length (a ∷ []) = if ascii_space a then 1 else 0
space_length (a ∷ b ∷ []) = if ascii_space a then 1 else if two_space a b then 2 else 0
space_length (a ∷ b ∷ c ∷ r) =
    if ascii_space a then 1 else if two_space a b then 2 else if three_space a b c then 3 else 0

-- The same of a text whose bytes stand in reverse.
unfoldable pub space_length_reversed : Bytes → ℕ
space_length_reversed [] = 0
space_length_reversed (a ∷ []) = if ascii_space a then 1 else 0
space_length_reversed (b ∷ a ∷ []) = if ascii_space b then 1 else if two_space a b then 2 else 0
space_length_reversed (c ∷ b ∷ a ∷ r) =
    if ascii_space c then 1 else if two_space b c then 2 else if three_space a b c then 3 else 0

-- A round for each byte is enough, since each takes one byte at least.
unfoldable pub trim_by : (Bytes → ℕ) → ℕ → Bytes → Bytes
trim_by measure zero s = s
trim_by measure (suc fuel) s = elim (measure s) [
  | zero ↦ s
  | suc n ↦ trim_by measure fuel (drop (suc n) s)
]

-- `strings.TrimSpace`
unfoldable pub trim_space : Bytes → Bytes
unfolding trim_by space_length space_length_reversed
trim_space s =
    let front : Bytes = trim_by space_length (length s) s in
    reverse (trim_by space_length_reversed (length front) (reverse front))

abbrev onto : ℕ → List Bytes → List Bytes
onto c [] = (c ∷ []) ∷ []
onto c (s ∷ parts) = (c ∷ s) ∷ parts

-- `strings.Split(s, sep)` for a separator of one byte: never empty
unfoldable pub split_on : ℕ → Bytes → List Bytes
split_on sep [] = [] ∷ []
split_on sep (c ∷ s) = let parts = split_on sep s in if c == sep then [] ∷ parts else onto c parts

-- `strings.SplitN(s, sep, 2)`: the text before the first separator and the text behind it, `none` where
-- there is no separator
abbrev in_front : ℕ → Option (Bytes × Bytes) → Option (Bytes × Bytes)
in_front c none = none
in_front c (some (before, after)) = some (c ∷ before, after)

unfoldable pub cut_at : ℕ → Bytes → Option (Bytes × Bytes)
cut_at sep [] = none
cut_at sep (c ∷ s) = let rest = cut_at sep s in if c == sep then some ([], s) else in_front c rest

-- `strings.EqualFold(s, "ts")`: the letters in both cases, and U+017F, which folds to "s"
abbrev folds_to_s : Bytes → Bool
folds_to_s (a ∷ []) = a == b'S' || a == b's'
folds_to_s (a ∷ b ∷ []) = a == 0xc5 && b == 0xbf
folds_to_s _ = false

unfoldable pub is_ts : Bytes → Bool
is_ts [] = false
is_ts (a ∷ s) = (a == b'T' || a == b't') && folds_to_s s
