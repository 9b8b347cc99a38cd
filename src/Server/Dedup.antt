-- ===== src/Server/Dedup.antt =====
-- internal/server/server.go: `dedupCache`, the set of the uploads seen last. It is a list of
-- elements in the order of their last use and a map from a key to its element. An element is found
-- by its address, so an element here carries a number for it.
pub mod Elements
pub mod Synced
pub mod Refine
pub mod Window
use lepg.Base.{
  ℕ, suc, ◌+◌, Bool, true, false, List, [], ◌∷◌, Option, none, some, Bytes, StringMap, find, delete,
  put, length, ltb, ◌==◌, if◌then◌else◌,
}

-- `list.Element`
pub record Element : Type 0 where
  pub address : ℕ
  pub value : Bytes

-- `map[string]*list.Element`
abbrev pub Items : Type 0
Items = StringMap ℕ

pub record DedupCache : Type 0 where
  pub capacity : ℕ
  pub lru_list : List Element
  pub items : Items
  -- the address of the next new element
  pub fresh : ℕ

unfoldable pub new_dedup_cache : ℕ → DedupCache
new_dedup_cache capacity = record { capacity = capacity; lru_list = []; items = []; fresh = 0 }

-- `lruList.Remove(elem)`
abbrev pub remove_element : ℕ → List Element → List Element
remove_element a [] = []
remove_element a (e ∷ es) = if e.address == a then es else e ∷ remove_element a es

abbrev pub element_at : ℕ → List Element → Option Element
element_at a [] = none
element_at a (e ∷ es) = if e.address == a then some e else element_at a es

-- `lruList.MoveToFront(elem)`, which does nothing on an element of another list
abbrev pub put_front : Option Element → ℕ → List Element → List Element
put_front none a es = es
put_front (some e) a es = e ∷ remove_element a es

unfoldable pub move_to_front : ℕ → List Element → List Element
move_to_front a es = put_front (element_at a es) a es

abbrev pub last_of : Element → List Element → Element
last_of e [] = e
last_of e (d ∷ es) = last_of d es

-- `lruList.Back()`
abbrev pub back : List Element → Option Element
back [] = none
back (e ∷ es) = some (last_of e es)

abbrev pub touch : DedupCache → Option ℕ → Bool × DedupCache
touch c none = (false, c)
touch c (some a) = (true, record c { lru_list = move_to_front a c.lru_list })

unfoldable pub exists : Bytes → DedupCache → Bool × DedupCache
exists key c = touch c (find key c.items)

abbrev pub remove_oldest : DedupCache → Option Element → DedupCache
remove_oldest c none = c
remove_oldest c (some oldest) = record c {
  lru_list = remove_element oldest.address c.lru_list;
  items = delete oldest.value c.items;
}

unfoldable pub evict : DedupCache → DedupCache
evict c = if ltb c.capacity (length c.lru_list) then remove_oldest c (back c.lru_list) else c

-- The part of `add` behind the first test: a new element at the front.
unfoldable pub insert : Bytes → DedupCache → DedupCache
insert key c = record c {
  lru_list = record { address = c.fresh; value = key } ∷ c.lru_list;
  items = put key c.fresh c.items;
  fresh = suc c.fresh;
}

abbrev pub add_found : Bytes → DedupCache → Option ℕ → DedupCache
add_found key c (some a) = record c { lru_list = move_to_front a c.lru_list }
add_found key c none = evict (insert key c)

unfoldable pub add : Bytes → DedupCache → DedupCache
add key c = add_found key c (find key c.items)

unfoldable pub clear : DedupCache → DedupCache
clear c = record c { lru_list = []; items = [] }
