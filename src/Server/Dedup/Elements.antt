-- ===== src/Server/Dedup/Elements.antt =====
-- The list of the cache: elements found by key and by address, moved to the front and removed.
use lepg.Base.{
  ℕ, suc, ◌<◌, ◌≡◌, ◌≢◌, refl, sym, ap, ◌∙◌, subst, ==_refl, ne→not_==, arith, true, false, List,
  [], ◌∷◌, Option, none, some, Bool-cases, inl, inr, Bytes, bytes_eq, bytes_eq_iff, length, All,
  ◌==◌, if◌then◌else◌,
}
use lepg.Server.Dedup.{Element, remove_element, element_at, move_to_front}

-- The address of a key's element in the list.
abbrev pub locate : Bytes → List Element → Option ℕ
locate key [] = none
locate key (e ∷ es) = if bytes_eq e.value key then some e.address else locate key es

abbrev pub Apart : Element → Element → Type 0
Apart d x = (x.address ≢ d.address) × (bytes_eq x.value d.value ≡ false)

-- All addresses and all keys differ, and the addresses are below the next new one.
abbrev pub IsFresh : ℕ → List Element → Type 0
IsFresh n [] = Unit {0}
IsFresh n (e ∷ es) = (e.address < n) × All (Apart e) es × IsFresh n es

-- What holds of all elements holds of a located one.
pub located :
    (P : Element → Type 0) (key : Bytes) (a : ℕ) (es : List Element)
    → All P es
    → locate key es ≡ some a
    → P (record { address = a; value = key })
located P key a [] h e = absurd cc
located P key a (d ∷ es) (hd, h) e = elim (Bool-cases (bytes_eq d.value key)) [
  | inl same ↦
      let is_key : d.value ≡ key = (bytes_eq_iff d.value key).0 same in
      let is_a : d.address ≡ a = ground (arith, same) in
      subst (λ (x : Element). P x)
        (ap (λ k. record { address = d.address; value = k }) is_key
          ∙ ap (λ x. record { address = x; value = key }) is_a)
        hd
  | inr other ↦ located P key a es h (rw other at e)
]

-- An element at its address in the list.
pub element_at-locate :
    (key : Bytes) (n a : ℕ) (es : List Element)
    → IsFresh n es
    → locate key es ≡ some a
    → element_at a es ≡ some (record { address = a; value = key })
element_at-locate key n a [] h e = absurd cc
element_at-locate key n a (d ∷ es) (hd, others, h) e = elim (Bool-cases (bytes_eq d.value key)) [
  | inl same ↦
      let is_key : d.value ≡ key = (bytes_eq_iff d.value key).0 same in
      let is_a : d.address ≡ a = ground (arith, same) in
      rw (is_a, ==_refl a) (ap (λ v. some (record { address = a; value = v })) is_key)
  | inr other ↦
      let e' : locate key es ≡ some a = rw other at e in
      let (apart, _) = located (Apart d) key a es others e' in
      let rest = element_at-locate key n a es h e' in
      rw (ne→not_== d.address a (λ q. apart (sym q)), rest)
]

absent : (d : Element) (es : List Element) → All (Apart d) es → locate d.value es ≡ none
absent d [] h = refl
absent d (x ∷ es) ((_, other), h) = rw other (absent d es h)

-- The keys behind the removal of an element.
pub locate-remove :
    (key k : Bytes) (n a : ℕ) (es : List Element)
    → IsFresh n es
    → locate key es ≡ some a
    → locate k (remove_element a es) ≡ (if bytes_eq key k then none else locate k es)
locate-remove key k n a [] h e = absurd cc
locate-remove key k n a (d ∷ es) (hd, others, h) e = elim (Bool-cases (bytes_eq d.value key)) [
  | inl same ↦
      let is_key : d.value ≡ key = (bytes_eq_iff d.value key).0 same in
      let is_a : d.address ≡ a = ground (arith, same) in
      let gone : locate key es ≡ none =
        subst (λ v. locate v es ≡ none) is_key (absent d es others) in
      let decide : bytes_eq key k ≡ true → locate k es ≡ none =
        λ q. rw (← (bytes_eq_iff key k).0 q) gone in
      rw (is_a, ==_refl a, is_key) (ground (arith, decide))
  | inr other ↦
      let e' : locate key es ≡ some a = rw other at e in
      let (apart, _) = located (Apart d) key a es others e' in
      let rest = locate-remove key k n a es h e' in
      let apart_key : bytes_eq d.value k ≡ true → bytes_eq key k ≡ false =
        λ q. grind (arith, bytes_eq_iff d.value k, bytes_eq_iff key k, bytes_eq_iff d.value key) in
      rw (ne→not_== d.address a (λ q. apart (sym q)), rest) (ground (arith, apart_key))
]

-- A located element moved to the front leaves every key at its address.
pub locate-move :
    (key k : Bytes) (n a : ℕ) (es : List Element)
    → IsFresh n es
    → locate key es ≡ some a
    → locate k (record { address = a; value = key } ∷ remove_element a es) ≡ locate k es
locate-move key k n a es h e =
    let same : bytes_eq key k ≡ true → locate k es ≡ some a =
      λ q. subst (λ v. locate v es ≡ some a) ((bytes_eq_iff key k).0 q) e in
    rw (locate-remove key k n a es h e) (ground (arith, same))

pub All-remove :
    (P : Element → Type 0) (a : ℕ) (es : List Element) → All P es → All P (remove_element a es)
All-remove P a [] h = tt
All-remove P a (d ∷ es) (hd, h) = elim (Bool-cases (d.address == a)) [
  | inl same ↦ rw same h
  | inr other ↦ rw other (hd, All-remove P a es h)
]

pub IsFresh-remove : (n a : ℕ) (es : List Element) → IsFresh n es → IsFresh n (remove_element a es)
IsFresh-remove n a [] h = tt
IsFresh-remove n a (d ∷ es) (hd, others, h) = elim (Bool-cases (d.address == a)) [
  | inl same ↦ rw same h
  | inr other ↦ rw other (hd, All-remove (Apart d) a es others, IsFresh-remove n a es h)
]

-- The elements behind a located one's removal have another address and another key.
pub removed-apart :
    (key : Bytes) (n a : ℕ) (es : List Element)
    → IsFresh n es
    → locate key es ≡ some a
    → All (λ x. (x.address ≢ a) × (bytes_eq x.value key ≡ false)) (remove_element a es)
removed-apart key n a [] h e = absurd cc
removed-apart key n a (d ∷ es) (hd, others, h) e = elim (Bool-cases (bytes_eq d.value key)) [
  | inl same ↦
      let is_key : d.value ≡ key = (bytes_eq_iff d.value key).0 same in
      let is_a : d.address ≡ a = ground (arith, same) in
      let front =
        subst (λ v. All (λ x. (x.address ≢ d.address) × (bytes_eq x.value v ≡ false)) es) is_key
          others in
      let both =
        subst (λ v. All (λ x. (x.address ≢ v) × (bytes_eq x.value key ≡ false)) es) is_a front in
      rw (is_a, ==_refl a) both
  | inr other ↦
      let e' : locate key es ≡ some a = rw other at e in
      let (apart, _) = located (Apart d) key a es others e' in
      rw (ne→not_== d.address a (λ q. apart (sym q)))
        ((λ q. apart (sym q), other), removed-apart key n a es h e')
]

IsFresh-address :
    (key : Bytes) (n a : ℕ) (es : List Element) → IsFresh n es → locate key es ≡ some a → a < n
IsFresh-address key n a [] h e = absurd cc
IsFresh-address key n a (d ∷ es) (hd, _, h) e = elim (Bool-cases (bytes_eq d.value key)) [
  | inl same ↦ ground (arith, same)
  | inr other ↦ IsFresh-address key n a es h (rw other at e)
]

pub IsFresh-move :
    (key : Bytes) (n a : ℕ) (es : List Element)
    → IsFresh n es
    → locate key es ≡ some a
    → IsFresh n (record { address = a; value = key } ∷ remove_element a es)
IsFresh-move key n a es h e =
    (IsFresh-address key n a es h e, removed-apart key n a es h e, IsFresh-remove n a es h)

pub length-remove :
    (key : Bytes) (n a : ℕ) (es : List Element)
    → IsFresh n es
    → locate key es ≡ some a
    → suc (length (remove_element a es)) ≡ length es
length-remove key n a [] h e = absurd cc
length-remove key n a (d ∷ es) (hd, others, h) e = elim (Bool-cases (bytes_eq d.value key)) [
  | inl same ↦ let is_a : d.address ≡ a = ground (arith, same) in rw (is_a, ==_refl a)
  | inr other ↦
      let e' : locate key es ≡ some a = rw other at e in
      let (apart, _) = located (Apart d) key a es others e' in
      rw (ne→not_== d.address a (λ q. apart (sym q)), length-remove key n a es h e')
]

-- `MoveToFront` of a located element.
pub move_to_front-located :
    (key : Bytes) (n a : ℕ) (es : List Element)
    → IsFresh n es
    → locate key es ≡ some a
    → move_to_front a es ≡ record { address = a; value = key } ∷ remove_element a es
unfolding move_to_front
move_to_front-located key n a es h e = rw (element_at-locate key n a es h e)
