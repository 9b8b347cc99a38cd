-- ===== src/Server/Dedup/Synced.antt =====
-- The map and the list of the cache agree, and the cache stays within its capacity.
use lepg.Base.{
  ℕ, suc, ◌≤◌, ◌≡◌, refl, sym, ◌∙◌, ==_refl, ne→not_==, arith, false, List, [], ◌∷◌, none, some,
  Option-cases, Bool-cases, inl, inr, Bytes, bytes_eq, bytes_eq_iff, bytes_eq_refl, find,
  find-delete, find-put, length, All, ltb, ltb→lt, take,
}
use lepg.Server.Dedup.{
  Element, DedupCache, new_dedup_cache, remove_element, move_to_front, last_of, back, exists, add,
  insert, evict, remove_oldest, clear,
}
use lepg.Server.Dedup.Elements.{
  Apart, IsFresh, locate, locate-remove, locate-move, IsFresh-move, IsFresh-remove, length-remove,
  move_to_front-located,
}

pub record IsSynced (c : DedupCache) : Type 0 where
  pub agree : (key : Bytes) → find key c.items ≡ locate key c.lru_list
  pub fresh : IsFresh c.fresh c.lru_list
  pub bounded : length c.lru_list ≤ c.capacity

-- The last element.
module _ (P : Element → Type 0) where
  All-last : (e : Element) (es : List Element) → All P (e ∷ es) → P (last_of e es)
  All-last e [] (h, _) = h
  All-last e (d ∷ es) (_, h) = All-last d es h

pub locate-last :
    (n : ℕ) (e : Element) (es : List Element)
    → IsFresh n (e ∷ es)
    → locate (last_of e es).value (e ∷ es) ≡ some (last_of e es).address
locate-last n e [] h = rw (bytes_eq_refl e.value)
locate-last n e (d ∷ es) (_, others, h) =
    let (_, apart) = All-last (Apart e) d es others in
    let other : bytes_eq e.value (last_of d es).value ≡ false =
      grind (arith, bytes_eq_iff e.value (last_of d es).value, bytes_eq_refl e.value) in
    rw other (locate-last n d es h)

pub remove-last :
    (n : ℕ) (e : Element) (es : List Element)
    → IsFresh n (e ∷ es)
    → remove_element (last_of e es).address (e ∷ es) ≡ take (length es) (e ∷ es)
remove-last n e [] h = rw (==_refl e.address)
remove-last n e (d ∷ es) (_, others, h) =
    let (apart, _) = All-last (Apart e) d es others in
    rw (ne→not_== e.address (last_of d es).address (λ q. apart (sym q)), remove-last n d es h)

-- What the operations on an entry keep; the bound is restored by `evict`.
pub record IsLinked (c : DedupCache) : Type 0 where
  pub agree : (key : Bytes) → find key c.items ≡ locate key c.lru_list
  pub fresh : IsFresh c.fresh c.lru_list

new_dedup_cache-IsSynced : (capacity : ℕ) → IsSynced (new_dedup_cache capacity)
unfolding new_dedup_cache
new_dedup_cache-IsSynced capacity = record {
  agree = λ key. refl;
  fresh = tt;
  bounded = omega arith;
}

clear-IsSynced : (c : DedupCache) → IsSynced (clear c)
unfolding clear
clear-IsSynced c = record { agree = λ key. refl; fresh = tt; bounded = omega arith }

move-IsSynced :
    (key : Bytes) (a : ℕ) (c : DedupCache)
    → IsSynced c
    → find key c.items ≡ some a
    → IsSynced (record c { lru_list = move_to_front a c.lru_list })
move-IsSynced key a c s found =
    let e : locate key c.lru_list ≡ some a = sym (s.agree key) ∙ found in
    let moved = move_to_front-located key c.fresh a c.lru_list s.fresh e in
    record {
      agree = λ k. s.agree k ∙ sym (rw moved (locate-move key k c.fresh a c.lru_list s.fresh e));
      fresh = rw moved (IsFresh-move key c.fresh a c.lru_list s.fresh e);
      bounded =
          rw moved (omega (arith, s.bounded, length-remove key c.fresh a c.lru_list s.fresh e));
    }

IsFresh-suc : (n : ℕ) (es : List Element) → IsFresh n es → IsFresh (suc n) es
IsFresh-suc n [] h = tt
IsFresh-suc n (d ∷ es) (hd, others, h) = (omega arith, others, IsFresh-suc n es h)

-- A key that the list does not have, at the next new address.
none-Apart :
    (key : Bytes) (n : ℕ) (es : List Element)
    → IsFresh n es
    → locate key es ≡ none
    → All (Apart (record { address = n; value = key })) es
none-Apart key n [] h e = tt
none-Apart key n (d ∷ es) (hd, others, h) e = elim (Bool-cases (bytes_eq d.value key)) [
  | inl same ↦ absurd (ground (arith, same))
  | inr other ↦ ((λ q. absurd (omega arith), other), none-Apart key n es h (rw other at e))
]

pub insert-IsLinked :
    (key : Bytes) (c : DedupCache) → IsSynced c → find key c.items ≡ none → IsLinked (insert key c)
unfolding insert
insert-IsLinked key c s missing = record {
  agree = λ k. ground (arith, find-put key k c.fresh c.items, s.agree k);
  fresh = (
    omega arith,
    none-Apart key c.fresh c.lru_list s.fresh (sym (s.agree key) ∙ missing),
    IsFresh-suc c.fresh c.lru_list s.fresh,
  );
}

-- The cache with another list.
abbrev pub with_list : DedupCache → List Element → DedupCache
with_list c es = record c { lru_list = es }

remove_oldest-IsSynced :
    (c : DedupCache) (es : List Element)
    → IsLinked (with_list c es)
    → length es ≡ suc c.capacity
    → IsSynced (remove_oldest (with_list c es) (back es))
remove_oldest-IsSynced c [] s full = absurd (omega arith)
remove_oldest-IsSynced c (d ∷ es) s full =
    let last : Element = last_of d es in
    let e = locate-last c.fresh d es s.fresh in
    record {
      agree = λ k.
          find-delete last.value k c.items
          ∙ rw (s.agree k)
              (sym (locate-remove last.value k c.fresh last.address (d ∷ es) s.fresh e));
      fresh = IsFresh-remove c.fresh last.address (d ∷ es) s.fresh;
      bounded = omega (arith, length-remove last.value c.fresh last.address (d ∷ es) s.fresh e);
    }

-- Evicting the oldest entry restores the bound.
evict-IsSynced :
    (c : DedupCache) → IsLinked c → length c.lru_list ≤ suc c.capacity → IsSynced (evict c)
unfolding evict
evict-IsSynced c s h = elim (Bool-cases (ltb c.capacity (length c.lru_list))) [
  | inl over ↦ rw over (
      remove_oldest-IsSynced c c.lru_list s
        (omega (arith, ltb→lt c.capacity (length c.lru_list) over)))
  | inr within ↦
      rw within (record { agree = s.agree; fresh = s.fresh; bounded = ground (arith, within) })
]

pub exists-IsSynced : (key : Bytes) (c : DedupCache) → IsSynced c → IsSynced (exists key c).1
unfolding exists
exists-IsSynced key c s = elim (Option-cases (find key c.items)) [
  | inl missing ↦ rw missing s
  | inr (a, found) ↦ rw found (move-IsSynced key a c s found)
]

pub add-IsSynced : (key : Bytes) (c : DedupCache) → IsSynced c → IsSynced (add key c)
unfolding add insert
add-IsSynced key c s = elim (Option-cases (find key c.items)) [
  | inl missing ↦
      rw missing
        (evict-IsSynced (insert key c) (insert-IsLinked key c s missing) (omega (arith, s.bounded)))
  | inr (a, found) ↦ rw found (move-IsSynced key a c s found)
]

-- Every operation of the cache keeps its map and its list in agreement, with no key and no element
-- twice, and at most as many entries as the capacity; a new cache is so.
pub dedup-IsSynced :
    (capacity : ℕ) (key : Bytes) (c : DedupCache)
    → IsSynced c
    → IsSynced (new_dedup_cache capacity)
      × IsSynced (exists key c).1
      × IsSynced (add key c)
      × IsSynced (clear c)
dedup-IsSynced capacity key c s = (
  new_dedup_cache-IsSynced capacity,
  exists-IsSynced key c s,
  add-IsSynced key c s,
  clear-IsSynced c,
)
