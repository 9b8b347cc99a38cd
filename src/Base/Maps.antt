-- ===== src/Base/Maps.antt =====
-- Go's maps with string keys as association lists: the first entry of a key counts.
use mathlib.Core.Path.{◌≡◌, refl}
use mathlib.Core.Bool.{true}
use mathlib.Core.List.{List, [], ◌∷◌}
use mathlib.Core.Option.{Option, none, some}
use native.Mathlib.Omega.{arith}
use lepg.Base.Tests.{if◌then◌else◌}
use lepg.Base.Strings.{Bytes, bytes_eq, bytes_eq_iff}

abbrev pub StringMap {ℓ} : Type ℓ → Type ℓ
StringMap A = List (Bytes × A)

pub bytes_eq_refl : (k : Bytes) → bytes_eq k k ≡ true
bytes_eq_refl k = (bytes_eq_iff k k).1 refl

module _ {ℓ} {A : Type ℓ} where
  -- `m[key]`
  abbrev pub find : Bytes → StringMap A → Option A
  find key [] = none
  find key ((k, a) ∷ m) = if bytes_eq k key then some a else find key m

  -- `delete(m, key)`
  abbrev pub delete : Bytes → StringMap A → StringMap A
  delete key [] = []
  delete key ((k, a) ∷ m) = if bytes_eq k key then delete key m else (k, a) ∷ delete key m

  -- `m[key] = a`
  abbrev pub put : Bytes → A → StringMap A → StringMap A
  put key a [] = (key, a) ∷ []
  put key a ((k, b) ∷ m) = if bytes_eq k key then (k, a) ∷ m else (k, b) ∷ put key a m

  pub find-delete :
      (key k : Bytes) (m : StringMap A)
      → find k (delete key m) ≡ (if bytes_eq key k then none else find k m)
  find-delete key k [] = ground arith
  find-delete key k ((j, a) ∷ m) = grind (
    arith,
    find-delete key k m,
    bytes_eq_iff j key,
    bytes_eq_iff j k,
    bytes_eq_iff key k,
    bytes_eq_refl k,
  )

  pub find-put :
      (key k : Bytes) (a : A) (m : StringMap A)
      → find k (put key a m) ≡ (if bytes_eq key k then some a else find k m)
  find-put key k a [] = ground arith
  find-put key k a ((j, b) ∷ m) = grind (
    arith,
    find-put key k a m,
    bytes_eq_iff j key,
    bytes_eq_iff j k,
    bytes_eq_iff key k,
    bytes_eq_refl k,
  )
