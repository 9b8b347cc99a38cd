-- ===== src/Config/Populate/Laws.antt =====
-- The provider of the highest priority that may serve a field and has its key is the one that serves it.
use lepg.Base.{
  Bytes, true, false, List, [], ◌∷◌, ◌++◌, All, All-append, append_assoc, append-nil, ◌≡◌, refl,
  sym, ap, ◌∙◌,
}
use mathlib.Core.List.{reverse, reverse-append}
use lepg.Config.Populate.{
  Sources, Provider, Kind, Tags, value_of, serves, from_tag, populate_from, populate_field,
}

-- A provider that may not serve the field, or does not have its key.
abbrev pub PassedOver : Sources → Kind → Bytes → Provider → Type 0
PassedOver s kind key p = serves s kind key p ≡ false

All-reverse {ℓ} : {A : Type 0} (P : A → Type ℓ) (xs : List A) → All P xs → All P (reverse xs)
All-reverse P [] h = tt
All-reverse P (x ∷ xs) (hx, h) =
    rw (reverse-append (x ∷ []) xs)
      (All-append P (reverse xs) (x ∷ []) (All-reverse P xs h) (hx, tt))

populate_from_skips :
    (tags : Tags) (kind : Kind) (key : Bytes) (s : Sources) (tag : Bytes) (high low : List Provider)
    → All (PassedOver s kind key) high
    → populate_from tags kind key s tag (high ++ low) ≡ populate_from tags kind key s tag low
unfolding populate_from
populate_from_skips tags kind key s tag [] low h = refl
populate_from_skips tags kind key s tag (p ∷ high) low (hp, h) =
    rw hp (populate_from_skips tags kind key s tag high low h)

populate_from_first :
    (tags : Tags) (kind : Kind) (key : Bytes) (s : Sources) (tag : Bytes) (p : Provider)
    (low : List Provider)
    → serves s kind key p ≡ true
    → populate_from tags kind key s tag (p ∷ low) ≡ value_of kind p key
unfolding populate_from
populate_from_first tags kind key s tag p low h = rw h refl

-- A field gets its value from a provider of the chain that is among its sources and has its key, where
-- no provider behind it in the chain is among the sources and has the key, whatever stands in front.
pub populate_field_highest :
    (tags : Tags) (kind : Kind) (key : Bytes) (s : Sources) (tag : Bytes) (p : Provider)
    (low high : List Provider)
    → serves s kind key p ≡ true
    → All (PassedOver s kind key) high
    → populate_field tags kind key s tag (low ++ p ∷ high) ≡ value_of kind p key
unfolding populate_field
populate_field_highest tags kind key s tag p low high h passed =
    let order : reverse (low ++ p ∷ high) ≡ reverse high ++ p ∷ reverse low =
      reverse-append low (p ∷ high)
      ∙ ap (λ (front : List Provider). front ++ reverse low) (reverse-append (p ∷ []) high)
      ∙ append_assoc (reverse high) (p ∷ []) (reverse low) in
    rw order (
      populate_from_skips tags kind key s tag (reverse high) (p ∷ reverse low)
        (All-reverse (PassedOver s kind key) high passed)
      ∙ populate_from_first tags kind key s tag p (reverse low) h)

-- Where no provider of the chain may serve the field and has its key, the field gets its default tag, if
-- it has one and defaults are among its sources, and keeps its value otherwise.
pub populate_field_default :
    (tags : Tags) (kind : Kind) (key : Bytes) (s : Sources) (tag : Bytes)
    (providers : List Provider)
    → All (PassedOver s kind key) providers
    → populate_field tags kind key s tag providers ≡ from_tag tags kind s tag
unfolding populate_field
populate_field_default tags kind key s tag providers passed =
    ap (populate_from tags kind key s tag) (sym (append-nil (reverse providers)))
    ∙ populate_from_skips tags kind key s tag (reverse providers) []
        (All-reverse (PassedOver s kind key) providers passed)
    ∙ unfold populate_from in refl
