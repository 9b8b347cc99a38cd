-- ===== src/Server/Grouping.antt =====
-- internal/server/server.go: the readings of an upload grouped by device name, in one pass for a
-- few and in two passes for many.
pub mod Laws
use lepg.Base.{
  ℕ, ◌+◌, List, [], ◌∷◌, ◌++◌, Option, none, some, Bytes, StringMap, find, put, codes, length, ltb,
  if◌then◌else◌,
}
use lepg.Reading.{Reading}

unfoldable pub unknown_name : Bytes
unknown_name = codes "__unknown__"

abbrev pub name_or_unknown : Bytes → Bytes
name_or_unknown [] = unknown_name
name_or_unknown (x ∷ xs) = x ∷ xs

-- The key of a reading's group.
abbrev pub group_key : Reading → Bytes
group_key r = name_or_unknown r.device_name

-- A missing entry reads as the zero value.
abbrev pub entry_or {ℓ} : {A : Type ℓ} → A → Option A → A
entry_or d none = d
entry_or d (some a) = a

-- `grouped[key] = append(grouped[key], *r)` for every reading
unfoldable pub append_groups : List Reading → StringMap (List Reading) → StringMap (List Reading)
append_groups [] grouped = grouped
append_groups (r ∷ rs) grouped =
    let key = group_key r in
    append_groups rs (put key (entry_or [] (find key grouped) ++ (r ∷ [])) grouped)

unfoldable pub group_readings_by_device_name : List Reading → StringMap (List Reading)
group_readings_by_device_name rs = append_groups rs []

-- `counts[key]++` for every reading
unfoldable pub count_groups : List Reading → StringMap ℕ → StringMap ℕ
count_groups [] counts = counts
count_groups (r ∷ rs) counts =
    let key = group_key r in count_groups rs (put key (entry_or 0 (find key counts) + 1) counts)

-- `grouped[k] = make([]model.Reading, 0, n)` for every count, in any order
unfoldable pub prealloc : StringMap ℕ → StringMap (List Reading)
prealloc [] = []
prealloc ((k, n) ∷ counts) = put k [] (prealloc counts)

unfoldable pub group_readings_prealloc : List Reading → StringMap (List Reading)
group_readings_prealloc rs = append_groups rs (prealloc (count_groups rs []))

-- The choice that `handleUpload` makes.
unfoldable pub group_readings : List Reading → StringMap (List Reading)
group_readings rs =
    if ltb (length rs) 8 then group_readings_by_device_name rs else group_readings_prealloc rs
