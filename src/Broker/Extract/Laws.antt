-- ===== src/Broker/Extract/Laws.antt =====
-- The value of a key: what a client writes as "k1=v1;k2=v2" is what the broker reads; and which values
-- keep their text in a reading.
use lepg.Base.{
  ℕ, zero, suc, ◌≤◌, ◌≡◌, ◌≢◌, Bytes, bytes_eq, true, false, List, [], ◌∷◌, ◌++◌, All, All-append,
  length, none, some, ◌==◌, ==_refl, find, arith, refl, ap, ◌∙◌, Bool-cases, inl, inr,
}
use mathlib.Core.Option
use mathlib.Core.List.{reverse, reverse-append, reverse-reverse}
use lepg.Model.Value.{
  DataType, bool, int16, uint16, int32, uint32, float32, float64, string, json, other_type, Value,
  truth, number, text, Texts, serialize_value, format_bool,
}
use lepg.Config.ValidationError.{is_empty}
use lepg.Config.Mqtt.{validate_data_type}
use lepg.Broker.Text.{space_length, space_length_reversed, trim_by, trim_space, split_on, cut_at}
use lepg.Broker.Extract.{Formats, kv_pairs, scalar, lookup_pair, extract_kv_value, check_data_type}

-- A printable ASCII character that is no space.
abbrev pub IsVisible : ℕ → Type 0
IsVisible c = (33 ≤ c) × (c ≤ 126)

space_length_visible : (s : Bytes) → All IsVisible s → space_length s ≡ 0
unfolding space_length
space_length_visible [] h = refl
space_length_visible (a ∷ []) h = ground arith
space_length_visible (a ∷ b ∷ []) h = ground arith
space_length_visible (a ∷ b ∷ c ∷ r) h = ground arith

space_length_reversed_visible : (s : Bytes) → All IsVisible s → space_length_reversed s ≡ 0
unfolding space_length_reversed
space_length_reversed_visible [] h = refl
space_length_reversed_visible (a ∷ []) h = ground arith
space_length_reversed_visible (a ∷ b ∷ []) h = ground arith
space_length_reversed_visible (a ∷ b ∷ c ∷ r) h = ground arith

trim_by_nothing :
    (measure : Bytes → ℕ) (fuel : ℕ) (s : Bytes) → measure s ≡ 0 → trim_by measure fuel s ≡ s
unfolding trim_by
trim_by_nothing measure zero s h = refl
trim_by_nothing measure (suc fuel) s h = rw (h, trim_by) refl

All-reverse : (s : Bytes) → All IsVisible s → All IsVisible (reverse s)
All-reverse [] h = tt
All-reverse (a ∷ s) (ha, h) =
    rw (reverse-append (a ∷ []) s)
      (All-append IsVisible (reverse s) (a ∷ []) (All-reverse s h) (ha, tt))

-- A text of visible characters has nothing to trim.
trim_space_visible : (s : Bytes) → All IsVisible s → trim_space s ≡ s
unfolding trim_space
trim_space_visible s h =
    let front = trim_by_nothing space_length (length s) s (space_length_visible s h) in
    rw front (
      ap reverse (
        trim_by_nothing space_length_reversed (length s) (reverse s)
          (space_length_reversed_visible (reverse s) (All-reverse s h)))
      ∙ reverse-reverse s)

-- A character that is not the separator.
abbrev pub IsNot : ℕ → ℕ → Type 0
IsNot sep c = (c == sep) ≡ false

split_on_append :
    (sep : ℕ) (xs ys : Bytes)
    → All (IsNot sep) xs
    → split_on sep (xs ++ sep ∷ ys) ≡ xs ∷ split_on sep ys
unfolding split_on
split_on_append sep [] ys h = rw (==_refl sep) refl
split_on_append sep (c ∷ xs) ys (hc, h) = rw (hc, split_on_append sep xs ys h) refl

split_on_last : (sep : ℕ) (xs : Bytes) → All (IsNot sep) xs → split_on sep xs ≡ xs ∷ []
unfolding split_on
split_on_last sep [] h = refl
split_on_last sep (c ∷ xs) (hc, h) = rw (hc, split_on_last sep xs h) refl

cut_at_append :
    (sep : ℕ) (xs ys : Bytes) → All (IsNot sep) xs → cut_at sep (xs ++ sep ∷ ys) ≡ some (xs, ys)
unfolding cut_at
cut_at_append sep [] ys h = rw (==_refl sep) refl
cut_at_append sep (c ∷ xs) ys (hc, h) = rw (hc, cut_at_append sep xs ys h) refl

-- A key and a value as a client may write them.
pub record IsPair (pair : Bytes × Bytes) : Type 0 where
  pub key_visible : All IsVisible pair.0
  pub value_visible : All IsVisible pair.1
  pub key_no_equals : All (IsNot b'=') pair.0
  pub key_no_semicolon : All (IsNot b';') pair.0
  pub value_no_semicolon : All (IsNot b';') pair.1

abbrev pub pair_text : Bytes × Bytes → Bytes
pair_text (k, v) = k ++ b'=' ∷ v

-- "k1=v1;k2=v2"
abbrev pub pairs_text : List (Bytes × Bytes) → Bytes
pairs_text [] = []
pairs_text (p ∷ []) = pair_text p
pairs_text (p ∷ q ∷ more) = pair_text p ++ b';' ∷ pairs_text (q ∷ more)

pair_text-IsVisible : (p : Bytes × Bytes) → IsPair p → All IsVisible (pair_text p)
pair_text-IsVisible (k, v) g =
    All-append IsVisible k (b'=' ∷ v) g.key_visible (omega arith, g.value_visible)

pair_text-IsNot : (p : Bytes × Bytes) → IsPair p → All (IsNot b';') (pair_text p)
pair_text-IsNot (k, v) g =
    All-append (IsNot b';') k (b'=' ∷ v) g.key_no_semicolon (refl, g.value_no_semicolon)

pairs_text-IsVisible : (ps : List (Bytes × Bytes)) → All IsPair ps → All IsVisible (pairs_text ps)
pairs_text-IsVisible [] h = tt
pairs_text-IsVisible (p ∷ []) (g, h) = pair_text-IsVisible p g
pairs_text-IsVisible (p ∷ q ∷ more) (g, h) =
    All-append IsVisible (pair_text p) (b';' ∷ pairs_text (q ∷ more)) (pair_text-IsVisible p g)
      (omega arith, pairs_text-IsVisible (q ∷ more) h)

pair_text_nonempty : (k v : Bytes) → is_empty (k ++ b'=' ∷ v) ≡ false
pair_text_nonempty [] v = refl
pair_text_nonempty (c ∷ k) v = refl

kv_pairs_cons :
    (p : Bytes × Bytes) (parts : List Bytes)
    → IsPair p
    → kv_pairs (pair_text p ∷ parts) ≡ p ∷ kv_pairs parts
unfolding kv_pairs
kv_pairs_cons (k, v) parts g =
    rw
      (
        trim_space_visible (k ++ b'=' ∷ v) (pair_text-IsVisible (k, v) g),
        pair_text_nonempty k v,
        cut_at_append b'=' k v g.key_no_equals,
        trim_space_visible k g.key_visible,
        trim_space_visible v g.value_visible,
      )
      refl

kv_pairs-split :
    (ps : List (Bytes × Bytes)) → All IsPair ps → kv_pairs (split_on b';' (pairs_text ps)) ≡ ps
unfolding kv_pairs split_on trim_space
kv_pairs-split [] h = refl
kv_pairs-split (p ∷ []) (g, h) =
    rw (split_on_last b';' (pair_text p) (pair_text-IsNot p g)) (kv_pairs_cons p [] g)
kv_pairs-split (p ∷ q ∷ more) (g, h) =
    rw (split_on_append b';' (pair_text p) (pairs_text (q ∷ more)) (pair_text-IsNot p g)) (
      kv_pairs_cons p (split_on b';' (pairs_text (q ∷ more))) g
      ∙ ap (◌∷◌ p) (kv_pairs-split (q ∷ more) h))

-- The text of a bool, a number or a string; other JSON values have none.
abbrev pub plain_text : {F : Type 0} → Texts F → Value F → Bytes
plain_text t (truth b) = format_bool b
plain_text t (number f) = t.format_float f
plain_text t (text s) = s
plain_text t _ = []

module _ {F : Type 0} (fm : Formats F) where
  lookup_pair-find :
      (key : Bytes) (ps : List (Bytes × Bytes))
      → lookup_pair fm key ps ≡ Option.map (scalar fm) (find key ps)
  lookup_pair-find key [] = refl
  lookup_pair-find key ((k, v) ∷ ps) = elim (Bool-cases (bytes_eq k key)) [
    | inl same ↦ rw same refl
    | inr other ↦ rw other (lookup_pair-find key ps)
  ]

  -- For pairs of visible ASCII characters, with no ";" in them and no "=" in a key, the broker reads
  -- from the text "k1=v1;k2=v2" for each key what a lookup in the list of the pairs gives, as a number,
  -- a bool or a string, and nothing for a key that is not there.
  pub extract_kv_value-pairs_text :
      (ps : List (Bytes × Bytes)) (key : Bytes)
      → All IsPair ps
      → extract_kv_value fm (pairs_text ps) key ≡ Option.map (scalar fm) (find key ps)
  unfolding extract_kv_value
  extract_kv_value-pairs_text ps key h =
      let whole : trim_space (pairs_text ps) ≡ pairs_text ps =
        trim_space_visible (pairs_text ps) (pairs_text-IsVisible ps h) in
      rw (whole, kv_pairs-split ps h) (lookup_pair-find key ps)

  -- A value that fits a data type which the validation accepts, other than json, goes into the reading
  -- with its text.
  pub serialize_value-check_data_type :
      (v : Value F) (dt : DataType)
      → validate_data_type dt ≡ none
      → dt ≢ json
      → check_data_type fm v dt ≡ true
      → serialize_value fm.texts dt v ≡ plain_text fm.texts v
  unfolding validate_data_type check_data_type serialize_value
  serialize_value-check_data_type (truth b) bool good other fits = refl
  serialize_value-check_data_type v bool good other fits = cc
  serialize_value-check_data_type (number f) int16 good other fits = refl
  serialize_value-check_data_type v int16 good other fits = cc
  serialize_value-check_data_type (number f) uint16 good other fits = refl
  serialize_value-check_data_type v uint16 good other fits = cc
  serialize_value-check_data_type (number f) int32 good other fits = refl
  serialize_value-check_data_type v int32 good other fits = cc
  serialize_value-check_data_type (number f) uint32 good other fits = refl
  serialize_value-check_data_type v uint32 good other fits = cc
  serialize_value-check_data_type (number f) float32 good other fits = refl
  serialize_value-check_data_type v float32 good other fits = cc
  serialize_value-check_data_type (number f) float64 good other fits = refl
  serialize_value-check_data_type v float64 good other fits = cc
  serialize_value-check_data_type v string good other fits = cc
  serialize_value-check_data_type v json good other fits = absurd (other refl)
  serialize_value-check_data_type v (other_type s) good other fits = ground arith
