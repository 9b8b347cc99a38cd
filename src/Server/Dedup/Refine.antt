-- ===== src/Server/Dedup/Refine.antt =====
-- The cache as the list of its keys, the latest first.
use lepg.Base.{
  ℕ, zero, suc, ◌≤◌, ◌≡◌, refl, sym, ap, ◌∙◌, ==_refl, ne→not_==, arith, Bool, true, false, List,
  [], ◌∷◌, map, none, some, Option-cases, Bool-cases, inl, inr, Bytes, bytes_eq, find, length,
  length-map, ltb, ltb→lt, if◌then◌else◌, take,
}
use lepg.Server.Dedup.{
  Element, DedupCache, remove_element, move_to_front, exists, add, insert, evict, clear,
}
use lepg.Server.Dedup.Elements.{
  Apart, IsFresh, locate, located, length-remove, move_to_front-located,
}
use lepg.Server.Dedup.Synced.{IsSynced, remove-last, with_list, insert-IsLinked}

-- The keys seen last, without the map and the addresses.
abbrev pub keys : DedupCache → List Bytes
keys c = map (λ e. e.value) c.lru_list

abbrev pub contains : Bytes → List Bytes → Bool
contains key [] = false
contains key (k ∷ ks) = if bytes_eq k key then true else contains key ks

abbrev pub without : Bytes → List Bytes → List Bytes
without key [] = []
without key (k ∷ ks) = if bytes_eq k key then ks else k ∷ without key ks

-- A key that is used becomes the latest one.
abbrev pub use_key : Bytes → List Bytes → List Bytes
use_key key ks = key ∷ without key ks

located-contains :
    (key : Bytes) (a : ℕ) (es : List Element)
    → locate key es ≡ some a
    → contains key (map (λ e. e.value) es) ≡ true
located-contains key a [] e = absurd cc
located-contains key a (d ∷ es) e = ground (arith, located-contains key a es)

missing-contains :
    (key : Bytes) (es : List Element)
    → locate key es ≡ none
    → (contains key (map (λ e. e.value) es) ≡ false)
      × (without key (map (λ e. e.value) es) ≡ map (λ e. e.value) es)
missing-contains key [] e = (refl, refl)
missing-contains key (d ∷ es) e = ground (arith, missing-contains key es)

-- Removing the element removes the key.
map-remove :
    (key : Bytes) (n a : ℕ) (es : List Element)
    → IsFresh n es
    → locate key es ≡ some a
    → map (λ e. e.value) (remove_element a es) ≡ without key (map (λ e. e.value) es)
map-remove key n a [] h e = refl
map-remove key n a (d ∷ es) (hd, others, h) e = elim (Bool-cases (bytes_eq d.value key)) [
  | inl same ↦ let is_a : d.address ≡ a = ground (arith, same) in rw (is_a, ==_refl a, same)
  | inr other ↦
      let e' : locate key es ≡ some a = rw other at e in
      let (apart, _) = located (Apart d) key a es others e' in
      rw (ne→not_== d.address a (λ q. apart (sym q)), other, map-remove key n a es h e')
]

map-take :
    (n : ℕ) (es : List Element) → map (λ e. e.value) (take n es) ≡ take n (map (λ e. e.value) es)
map-take zero es = refl
map-take (suc n) [] = refl
map-take (suc n) (d ∷ es) = rw (map-take n es)

module _ {ℓ} {A : Type ℓ} where
  take_all : (n : ℕ) (xs : List A) → length xs ≤ n → take n xs ≡ xs
  take_all zero [] h = refl
  take_all zero (x ∷ xs) h = absurd (omega arith)
  take_all (suc n) [] h = refl
  take_all (suc n) (x ∷ xs) h = ap (◌∷◌ x) (take_all n xs (omega arith))

keys-exists :
    (key : Bytes) (c : DedupCache)
    → IsSynced c
    → ((exists key c).0 ≡ contains key (keys c))
      × (keys (exists key c).1 ≡ (if contains key (keys c) then use_key key (keys c) else keys c))
unfolding exists
keys-exists key c s = elim (Option-cases (find key c.items)) [
  | inl missing ↦
      let (no_key, _) = missing-contains key c.lru_list (sym (s.agree key) ∙ missing) in
      rw (missing, no_key) (refl, refl)
  | inr (a, found) ↦
      let e = sym (s.agree key) ∙ found in
      rw
        (
          found,
          located-contains key a c.lru_list e,
          move_to_front-located key c.fresh a c.lru_list s.fresh e,
        )
        (refl, ap (◌∷◌ key) (map-remove key c.fresh a c.lru_list s.fresh e))
]

keys-evict :
    (e : Element) (es : List Element) (c : DedupCache)
    → IsFresh c.fresh (e ∷ es)
    → length es ≤ c.capacity
    → keys (evict (with_list c (e ∷ es))) ≡ take c.capacity (e.value ∷ map (λ x. x.value) es)
unfolding evict
keys-evict e es c fresh h = elim (Bool-cases (ltb c.capacity (suc (length es)))) [
  | inl over ↦
      let full : length es ≡ c.capacity = omega (arith, ltb→lt c.capacity (suc (length es)) over) in
      rw over (
        ap (map (λ x. x.value)) (remove-last c.fresh e es fresh)
        ∙ map-take (length es) (e ∷ es)
        ∙ ap (λ n. take n (e.value ∷ map (λ x. x.value) es)) full)
  | inr within ↦
      let room : suc (length es) ≤ c.capacity = ground (arith, within) in
      rw within (
        sym (
          take_all c.capacity (e.value ∷ map (λ x. x.value) es)
            (omega (arith, length-map (λ x. x.value) es))))
]

keys-add :
    (key : Bytes) (c : DedupCache)
    → IsSynced c
    → keys (add key c) ≡ take c.capacity (use_key key (keys c))
unfolding add insert
keys-add key c s = elim (Option-cases (find key c.items)) [
  | inl missing ↦
      let (_, same) = missing-contains key c.lru_list (sym (s.agree key) ∙ missing) in
      let linked = insert-IsLinked key c s missing in
      rw (missing, same)
        (keys-evict (record { address = c.fresh; value = key }) c.lru_list (insert key c)
          linked.fresh s.bounded)
  | inr (a, found) ↦
      let e = sym (s.agree key) ∙ found in
      let removed = map-remove key c.fresh a c.lru_list s.fresh e in
      let size = length-remove key c.fresh a c.lru_list s.fresh e in
      let kept : keys (record c { lru_list = move_to_front a c.lru_list }) ≡ use_key key (keys c) =
        rw (move_to_front-located key c.fresh a c.lru_list s.fresh e) (ap (◌∷◌ key) removed) in
      rw (found, kept)
        (sym (
          take_all c.capacity (use_key key (keys c)) (
            omega (
              arith,
              s.bounded,
              ap length removed,
              length-map (λ x. x.value) (remove_element a c.lru_list),
            ))))
]

-- The cache does what a list of its keys does: `exists` tells whether the key is on it, and a key
-- that it finds becomes the latest; `add` makes the key the latest and keeps the `capacity` latest
-- keys; `clear` forgets all.
pub dedup_refines :
    (key : Bytes) (c : DedupCache)
    → IsSynced c
    → ((exists key c).0 ≡ contains key (keys c))
      × (keys (exists key c).1 ≡ (if contains key (keys c) then use_key key (keys c) else keys c))
      × (keys (add key c) ≡ take c.capacity (use_key key (keys c)))
      × (keys (clear c) ≡ [])
unfolding clear
dedup_refines key c s =
    let (found, order) = keys-exists key c s in (found, order, keys-add key c s, refl)
