-- ===== src/Cache/Eviction.antt =====
-- Least-frequently-used eviction, cache/eviction.rs.
pub mod Laws
pub mod Batch
use neu_rust.Prelude.{
  ℕ, zero, suc, ◌+◌, ◌-◌, Bool, true, false, List, [], ◌∷◌, map, Option, none, some, ltb, leb,
  if◌then◌else◌, filter, is_empty, take,
}
use neu_rust.Prelude.Keys.{nat_eq}
use neu_rust.Prelude.Maps.{keys, remove, remove_all}
use neu_rust.Prelude.Sort.{sort_by}
use neu_rust.Cache.Entry.{CacheEntry, EntryMap, is_expired}

unfoldable pub expired_keys : ℕ → EntryMap → List ℕ
expired_keys now m = keys (filter (λ e. is_expired now e.1) m)

-- `min_by_key`: the first of the entries with the fewest hits.
unfoldable pub min_from : ℕ × CacheEntry → EntryMap → ℕ × CacheEntry
min_from best [] = best
min_from best (x ∷ xs) = min_from (if ltb x.1.hit_count best.1.hit_count then x else best) xs

unfoldable pub min_by_hits : EntryMap → Option (ℕ × CacheEntry)
unfolding min_from
min_by_hits [] = none
min_by_hits (x ∷ xs) = some (min_from x xs)

-- The second pass of `evict_lfu`.
unfoldable pub evict_least : EntryMap → EntryMap
unfolding min_by_hits
evict_least m = elim (min_by_hits m) [ none ↦ m | some victim ↦ remove victim.0 m ]

unfoldable pub evict_lfu : ℕ → EntryMap → EntryMap
unfolding expired_keys evict_least
evict_lfu now m =
    let expired = expired_keys now m in
    if is_empty expired then evict_least m else remove_all expired m

-- The first loop of `evict_lfu_batch`: what is left, how many are removed, and whether it returned.
unfoldable pub remove_expired : ℕ → List ℕ → ℕ → EntryMap → EntryMap × ℕ × Bool
remove_expired count [] removed m = (m, removed, false)
remove_expired count (k ∷ ks) removed m =
    let rest = remove_expired count ks (removed + 1) (remove k m) in
    if leb count (removed + 1) then (remove k m, removed + 1, true) else rest

abbrev pub fewer_hits : ℕ × CacheEntry → ℕ × CacheEntry → Bool
fewer_hits a b = leb a.1.hit_count b.1.hit_count

-- The second half of `evict_lfu_batch`.
unfoldable pub evict_coldest : ℕ → EntryMap → EntryMap
evict_coldest remaining m = remove_all (take remaining (keys (sort_by fewer_hits m))) m

unfoldable pub evict_lfu_batch : ℕ → ℕ → EntryMap → EntryMap
unfolding remove_expired evict_coldest
evict_lfu_batch now count m =
    let (m', removed, returned) = remove_expired count (expired_keys now m) 0 m in
    if returned then m' else evict_coldest (count - removed) m'
