-- ===== src/Broker/Source.antt =====
-- internal/client/mqtt.go: `parseSource`, the source of a topic's values.
use lepg.Base.{
  Bytes, codes, bytes_eq, has_prefix, Bool, true, false, [], ◌∷◌, drop, Option, none, some, ◌≡◌,
  ◌↔◌, inl, inr, refl, sym, ◌∙◌, subst, arith, if◌then◌else◌, Bool-cases,
}
use lepg.Config.ValidationError.{ConfigError, text_error, is_empty}
use lepg.Config.Mqtt.{validate_source}

-- `sourceFormat`: a field of JSON, the whole payload, the value of a key
pub data SourceFormat : Type 0 where
  json_path kv_key : Bytes → SourceFormat
  plain : SourceFormat

-- `parseSource`: `none` is the error
unfoldable pub parse_source : Bytes → Option SourceFormat
parse_source source =
    if has_prefix source (codes "json:")
    then some (json_path (drop 5 source))
    else if bytes_eq source (codes "plain:")
    then some plain
    else if has_prefix source (codes "kv:")
    then some (kv_key (drop 3 source))
    else none

-- A path that is not empty where the format has one.
abbrev pub HasPath : SourceFormat → Type 0
HasPath (json_path path) = is_empty path ≡ false
HasPath (kv_key key) = is_empty key ≡ false
HasPath plain = Unit {0}

json_path_empty :
    (s : Bytes)
    → has_prefix s (codes "json:") ≡ true
    → is_empty (drop 5 s) ≡ bytes_eq s (codes "json:")
unfolding bytes_eq
json_path_empty [] h = ground arith
json_path_empty (a ∷ []) h = ground arith
json_path_empty (a ∷ b ∷ []) h = ground arith
json_path_empty (a ∷ b ∷ c ∷ []) h = ground arith
json_path_empty (a ∷ b ∷ c ∷ d ∷ []) h = ground arith
json_path_empty (a ∷ b ∷ c ∷ d ∷ e ∷ []) h = ground arith
json_path_empty (a ∷ b ∷ c ∷ d ∷ e ∷ z ∷ r) h = ground arith

kv_key_empty :
    (s : Bytes) → has_prefix s (codes "kv:") ≡ true → is_empty (drop 3 s) ≡ bytes_eq s (codes "kv:")
unfolding bytes_eq
kv_key_empty [] h = ground arith
kv_key_empty (a ∷ []) h = ground arith
kv_key_empty (a ∷ b ∷ []) h = ground arith
kv_key_empty (a ∷ b ∷ c ∷ []) h = ground arith
kv_key_empty (a ∷ b ∷ c ∷ z ∷ r) h = ground arith

format-injective : (f g : SourceFormat) → some f ≡ some g → f ≡ g
format-injective f g e = cc

-- A format with a path: the empty path is refused, and is what the format wants not to be.
path_exact :
    (b : Bool) (e : ConfigError) (f : SourceFormat)
    → (b ≡ false → HasPath f)
    → (HasPath f → b ≡ false)
    → ((if b then some e else none) ≡ none) ↔ ((g : SourceFormat) × (some f ≡ some g) × HasPath g)
path_exact true e f good path = (
  λ h. cc,
  λ (g, same, p). absurd (cc (path (subst HasPath (sym (format-injective f g same)) p))),
)
path_exact false e f good path = (λ h. (f, refl, good refl), λ h. refl)

no_source : parse_source [] ≡ none
unfolding parse_source bytes_eq
no_source = refl

-- The validation of a configuration accepts a source exactly where the broker can parse it and gets a
-- path or a key that is not empty, if the format has one: no accepted configuration fails at the broker.
pub validate_source-parse_source :
    (s : Bytes)
    → (validate_source s ≡ none) ↔ ((f : SourceFormat) × (parse_source s ≡ some f) × HasPath f)
unfolding validate_source parse_source
validate_source-parse_source [] = (λ h. cc, λ (f, e, p). cc (no_source, e))
validate_source-parse_source (c ∷ r) = elim (Bool-cases (has_prefix (c ∷ r) (codes "json:"))) [
  | inl is_json ↦
      let e = json_path_empty (c ∷ r) is_json in
      rw is_json (
        path_exact (bytes_eq (c ∷ r) (codes "json:")) _ (json_path (drop 5 (c ∷ r))) (λ h. e ∙ h)
          (λ h. sym e ∙ h))
  | inr not_json ↦ elim (Bool-cases (bytes_eq (c ∷ r) (codes "plain:"))) [
    | inl is_plain ↦
        rw (not_json, is_plain) (path_exact false (text_error []) plain (λ h. tt) (λ h. refl))
    | inr not_plain ↦ elim (Bool-cases (has_prefix (c ∷ r) (codes "kv:"))) [
      | inl is_kv ↦
          let e = kv_key_empty (c ∷ r) is_kv in
          rw (not_json, not_plain, is_kv)
            (path_exact (bytes_eq (c ∷ r) (codes "kv:")) _ (kv_key (drop 3 (c ∷ r))) (λ h. e ∙ h)
              (λ h. sym e ∙ h))
      | inr not_kv ↦ rw (not_json, not_plain, not_kv) (λ h. cc, λ (f, e, p). cc)
    ]
  ]
]
