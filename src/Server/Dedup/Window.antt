-- ===== src/Server/Dedup/Window.antt =====
-- How long the cache remembers a key.
use lepg.Base.{
  ℕ, zero, suc, ◌+◌, ◌<◌, ◌≤◌, ◌≡◌, refl, ap, ◌∙◌, arith, true, false, Bool-cases, inl, inr, List,
  [], ◌∷◌, take, length, Bytes, bytes_eq, bytes_eq_iff, bytes_eq_refl, find, ltb, Option, none,
  some,
}
use lepg.Server.Dedup.{
  DedupCache, Element, exists, add, add_found, evict, insert, remove_oldest, back, touch,
}
use lepg.Server.Dedup.Synced.{IsSynced, add-IsSynced, exists-IsSynced}
use lepg.Server.Dedup.Refine.{keys, contains, without, use_key, dedup_refines}

contains-suc :
    (key : Bytes) (n : ℕ) (ks : List Bytes)
    → contains key (take n ks) ≡ true
    → contains key (take (suc n) ks) ≡ true
contains-suc key zero ks h = absurd cc
contains-suc key (suc n) [] h = absurd cc
contains-suc key (suc n) (k ∷ ks) h = ground (arith, contains-suc key n ks)

contains-without :
    (key k : Bytes) (n : ℕ) (ks : List Bytes)
    → bytes_eq k key ≡ false
    → contains key (take n ks) ≡ true
    → contains key (take n (without k ks)) ≡ true
contains-without key k zero ks ne h = absurd cc
contains-without key k (suc n) [] ne h = absurd cc
contains-without key k (suc n) (x ∷ ks) ne h = elim (Bool-cases (bytes_eq x k)) [
  | inl same ↦
      let other : bytes_eq x key ≡ false = grind (arith, bytes_eq_iff x k, ne) in
      rw same (contains-suc key n ks (rw other at h))
  | inr other ↦ rw other (ground (arith, contains-without key k n ks))
]

contains-use :
    (key k : Bytes) (n : ℕ) (ks : List Bytes)
    → contains key (take n ks) ≡ true
    → contains key (take (suc n) (use_key k ks)) ≡ true
contains-use key k n ks h = ground (arith, contains-without key k n ks)

module _ {ℓ} {A : Type ℓ} where
  take-take : (n m : ℕ) (xs : List A) → n ≤ m → take n (take m xs) ≡ take n xs
  take-take zero m xs h = refl
  take-take (suc n) zero xs h = absurd (omega arith)
  take-take (suc n) (suc m) [] h = refl
  take-take (suc n) (suc m) (x ∷ xs) h = ap (◌∷◌ x) (take-take n m xs (omega arith))

contains-take :
    (key : Bytes) (n : ℕ) (ks : List Bytes)
    → contains key (take n ks) ≡ true
    → contains key ks ≡ true
contains-take key zero ks h = absurd cc
contains-take key (suc n) [] h = absurd cc
contains-take key (suc n) (k ∷ ks) h = ground (arith, contains-take key n ks)

capacity-oldest : (c : DedupCache) (o : Option Element) → (remove_oldest c o).capacity ≡ c.capacity
capacity-oldest c none = refl
capacity-oldest c (some e) = refl

capacity-evict : (c : DedupCache) → (evict c).capacity ≡ c.capacity
unfolding evict
capacity-evict c = elim (Bool-cases (ltb c.capacity (length c.lru_list))) [
  | inl over ↦ rw over (capacity-oldest c (back c.lru_list))
  | inr within ↦ rw within
]

capacity-found :
    (key : Bytes) (c : DedupCache) (o : Option ℕ) → (add_found key c o).capacity ≡ c.capacity
unfolding insert
capacity-found key c none = capacity-evict (insert key c)
capacity-found key c (some a) = refl

pub capacity-add : (key : Bytes) (c : DedupCache) → (add key c).capacity ≡ c.capacity
unfolding add
capacity-add key c = capacity-found key c (find key c.items)

-- The cache after several additions.
abbrev pub add_all : List Bytes → DedupCache → DedupCache
add_all [] c = c
add_all (k ∷ ks) c = add_all ks (add k c)

-- A key among the `n` latest stays among the latest.
add_all-contains :
    (key : Bytes) (n : ℕ) (ks : List Bytes) (c : DedupCache)
    → IsSynced c
    → n + length ks ≤ c.capacity
    → contains key (take n (keys c)) ≡ true
    → (exists key (add_all ks c)).0 ≡ true
add_all-contains key n [] c s h e =
    let (found, _, _, _) = dedup_refines key c s in found ∙ contains-take key n (keys c) e
add_all-contains key n (k ∷ ks) c s h e =
    let (_, _, added, _) = dedup_refines k c s in
    let later : contains key (take (suc n) (keys (add k c))) ≡ true =
      rw (added, take-take (suc n) c.capacity (use_key k (keys c)) (omega arith))
        (contains-use key k n (keys c) e) in
    add_all-contains key (suc n) ks (add k c) (add-IsSynced k c s) (omega (arith, capacity-add k c))
      later

-- An added key is still found after any further additions that are fewer than the capacity.
pub exists-add_all-add :
    (key : Bytes) (ks : List Bytes) (c : DedupCache)
    → IsSynced c
    → length ks < c.capacity
    → (exists key (add_all ks (add key c))).0 ≡ true
exists-add_all-add key ks c s h =
    let (_, _, added, _) = dedup_refines key c s in
    let first : contains key (take 1 (keys (add key c))) ≡ true =
      rw (added, take-take 1 c.capacity (use_key key (keys c)) (omega arith), bytes_eq_refl key) in
    add_all-contains key 1 ks (add key c) (add-IsSynced key c s) (omega (arith, capacity-add key c))
      first

capacity-touch : (c : DedupCache) (o : Option ℕ) → (touch c o).1.capacity ≡ c.capacity
capacity-touch c none = refl
capacity-touch c (some a) = refl

capacity-exists : (key : Bytes) (c : DedupCache) → (exists key c).1.capacity ≡ c.capacity
unfolding exists
capacity-exists key c = capacity-touch c (find key c.items)

-- A key that was found is found again.
pub exists-exists :
    (key : Bytes) (c : DedupCache)
    → IsSynced c
    → (exists key c).0 ≡ true
    → (exists key (exists key c).1).0 ≡ true
exists-exists key c s e =
    let (found, order, _, _) = dedup_refines key c s in
    let (again, _, _, _) = dedup_refines key (exists key c).1 (exists-IsSynced key c s) in
    again ∙ ap (contains key) order ∙ rw (← found, e, bytes_eq_refl key)

-- A key that was looked up and then added is found.
pub exists-add-exists :
    (key : Bytes) (c : DedupCache)
    → IsSynced c
    → 0 < c.capacity
    → (exists key (add key (exists key c).1)).0 ≡ true
exists-add-exists key c s room =
    exists-add_all-add key [] (exists key c).1 (exists-IsSynced key c s)
      (omega (arith, capacity-exists key c))
