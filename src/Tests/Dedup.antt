-- ===== src/Tests/Dedup.antt =====
-- The cache of uploads, with room for two keys.
use lepg.Base.{◌<◌, ◌≡◌, refl, arith, [], take, codes, Bytes, if◌then◌else◌}
use lepg.Server.Dedup.{DedupCache, new_dedup_cache, exists, add, clear}
use lepg.Server.Dedup.Synced.{IsSynced, dedup-IsSynced}
use lepg.Server.Dedup.Refine.{keys, contains, use_key, dedup_refines}
use lepg.Server.Dedup.Window.{capacity-add}

abbrev a : Bytes
a = codes "a"

abbrev b : Bytes
b = codes "b"

new_IsSynced : IsSynced (new_dedup_cache 2)
unfolding new_dedup_cache
new_IsSynced = record { agree = λ key. refl; fresh = tt; bounded = omega arith }

abbrev two_keys : DedupCache
two_keys = add b (add a (new_dedup_cache 2))

two_keys-IsSynced : IsSynced two_keys
two_keys-IsSynced =
    (dedup-IsSynced 2 b (add a (new_dedup_cache 2))
      (dedup-IsSynced 2 a (new_dedup_cache 2) new_IsSynced).2).2

dedup-IsSynced_example :
    IsSynced (new_dedup_cache 2)
    × IsSynced (exists a two_keys).1
    × IsSynced (add a two_keys)
    × IsSynced (clear two_keys)
dedup-IsSynced_example = dedup-IsSynced 2 a two_keys two_keys-IsSynced

dedup_refines_example :
    ((exists a two_keys).0 ≡ contains a (keys two_keys))
    × (keys (exists a two_keys).1
        ≡ (if contains a (keys two_keys) then use_key a (keys two_keys) else keys two_keys))
    × (keys (add a two_keys) ≡ take two_keys.capacity (use_key a (keys two_keys)))
    × (keys (clear two_keys) ≡ [])
dedup_refines_example = dedup_refines a two_keys two_keys-IsSynced

two_keys-capacity : 1 < two_keys.capacity
unfolding new_dedup_cache
two_keys-capacity =
    omega (arith, capacity-add b (add a (new_dedup_cache 2)), capacity-add a (new_dedup_cache 2))
