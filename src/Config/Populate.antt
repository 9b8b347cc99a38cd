-- ===== src/Config/Populate.antt =====
-- internal/config: the chain of providers and `PopulateFromProvider` for one field (populate.go,
-- provider.go). What a provider answers is a parameter: its kind, and the values of its keys.
pub mod Laws
use lepg.Base.{
  ℕ, Bytes, codes, bytes_eq, Bool, true, false, ◌&&◌, ◌||◌, List, [], ◌∷◌, Option, none, some,
  if◌then◌else◌,
}
use lepg.Base.Int.{ℤ, pos}
use lepg.Config.ValidationError.{is_empty}
use lepg.Broker.Text.{trim_space, split_on}
use mathlib.Core.List.{reverse}

-- `sourceOf`: the type of a provider
pub data Source : Type 0 where
  from_default from_env from_file from_flag from_other : Source

-- The bits of `Source`.
pub record Sources : Type 0 where
  pub default : Bool
  pub env : Bool
  pub file : Bool
  pub flag : Bool

abbrev pub no_sources : Sources
no_sources = record { default = false; env = false; file = false; flag = false }

abbrev pub allows : Sources → Source → Bool
allows s from_default = s.default
allows s from_env = s.env
allows s from_file = s.file
allows s from_flag = s.flag
allows s from_other = false

-- One part of the tag.
abbrev add_source : Bytes → Sources → Sources
add_source part s =
    if bytes_eq part (codes "default")
    then record s { default = true }
    else if bytes_eq part (codes "env")
    then record s { env = true }
    else if bytes_eq part (codes "file")
    then record s { file = true }
    else if bytes_eq part (codes "flag")
    then record s { flag = true }
    else s

abbrev add_sources : List Bytes → Sources → Sources
add_sources [] s = s
add_sources (part ∷ parts) s = add_sources parts (add_source (trim_space part) s)

-- `parseSources`
unfoldable pub parse_sources : Bytes → Sources
parse_sources tag = if is_empty tag then no_sources else add_sources (split_on b',' tag) no_sources

-- `IProvider`
pub record Provider : Type 0 where
  pub source : Source
  pub is_set : Bytes → Bool
  pub get_string : Bytes → Bytes
  pub get_int : Bytes → ℤ
  pub get_bool : Bytes → Bool

-- `fieldVal.Kind()`
pub data Kind : Type 0 where
  string_kind int_kind bool_kind other_kind : Kind

-- What happens to the field: it keeps its value, gets one, or the default tag is invalid.
pub data Field : Type 0 where
  kept invalid_default : Field
  text : Bytes → Field
  int : ℤ → Field
  truth : Bool → Field

-- What the standard library parses of a default tag.
pub record Tags : Type 0 where
  pub atoi : Bytes → Option ℤ
  pub parse_bool : Bytes → Option Bool

abbrev pub value_of : Kind → Provider → Bytes → Field
value_of string_kind p key = text (p.get_string key)
value_of int_kind p key = int (p.get_int key)
value_of bool_kind p key = truth (p.get_bool key)
value_of other_kind p key = kept

-- Is the field taken from this provider?
abbrev pub serves : Sources → Kind → Bytes → Provider → Bool
serves s other_kind key p = false
serves s string_kind key p = allows s p.source && p.is_set key
serves s int_kind key p = allows s p.source && p.is_set key
serves s bool_kind key p = allows s p.source && p.is_set key

abbrev int_or : Option ℤ → Field
int_or none = invalid_default
int_or (some n) = int n

abbrev truth_or : Option Bool → Field
truth_or none = invalid_default
truth_or (some b) = truth b

-- `setFromDefaultTag`
unfoldable pub set_from_default_tag : Tags → Kind → Bytes → Field
set_from_default_tag tags string_kind tag = text tag
set_from_default_tag tags int_kind tag = int_or (tags.atoi tag)
set_from_default_tag tags bool_kind tag = truth_or (tags.parse_bool tag)
set_from_default_tag tags other_kind tag = kept

abbrev pub from_tag : Tags → Kind → Sources → Bytes → Field
from_tag tags kind s tag =
    if (if is_empty tag then false else s.default) then set_from_default_tag tags kind tag else kept

-- The loop, from the highest priority down.
unfoldable pub populate_from : Tags → Kind → Bytes → Sources → Bytes → List Provider → Field
populate_from tags kind key s tag [] = from_tag tags kind s tag
populate_from tags kind key s tag (p ∷ providers) =
    let rest = populate_from tags kind key s tag providers in
    if serves s kind key p then value_of kind p key else rest

-- `populateField`, on the providers in the order of the chain
unfoldable pub populate_field : Tags → Kind → Bytes → Sources → Bytes → List Provider → Field
populate_field tags kind key s tag providers = populate_from tags kind key s tag (reverse providers)

-- `ProviderChain.IsSet`, and `GetString`, `GetInt`, `GetBool` from the last provider to the first
unfoldable pub chain_is_set : Bytes → List Provider → Bool
chain_is_set key [] = false
chain_is_set key (p ∷ providers) =
    let rest = chain_is_set key providers in if p.is_set key then true else rest

abbrev string_from : Bytes → List Provider → Bytes
string_from key [] = []
string_from key (p ∷ providers) =
    let rest = string_from key providers in
    if is_empty (p.get_string key) then rest else p.get_string key

unfoldable pub chain_get_string : Bytes → List Provider → Bytes
chain_get_string key providers = string_from key (reverse providers)

abbrev int_from : Bytes → List Provider → ℤ
int_from key [] = pos 0
int_from key (p ∷ providers) =
    let rest = int_from key providers in if p.is_set key then p.get_int key else rest

unfoldable pub chain_get_int : Bytes → List Provider → ℤ
chain_get_int key providers = int_from key (reverse providers)

abbrev bool_from : Bytes → List Provider → Bool
bool_from key [] = false
bool_from key (p ∷ providers) =
    let rest = bool_from key providers in if p.is_set key then p.get_bool key else rest

unfoldable pub chain_get_bool : Bytes → List Provider → Bool
chain_get_bool key providers = bool_from key (reverse providers)
