-- ===== src/Cache/Exact.antt =====
-- The exact cache, cache/exact_cache.rs: each method as a function of the time and the cache.
pub mod Bounds
pub mod Reads
pub mod Dump
use neu_rust.Prelude.{
  ℕ, zero, suc, ◌/◌, ◌-◌, Bool, true, false, not, List, [], ◌∷◌, map, Option, none, some, leb,
  is_some, if◌then◌else◌, length, is_empty, filter, take,
}
use neu_rust.Prelude.Keys.{nat_eq}
use neu_rust.Prelude.Maps
use neu_rust.Prelude.Sort.{sort_by}
use neu_rust.Contracts.{UnifiedResponse}
use neu_rust.Cache.Entry.{CacheEntry, EntryMap, is_expired, bump, CacheDumpEntry}
use neu_rust.Cache.Eviction.{evict_lfu}

pub record ExactCache : Type 0 where
  pub map : EntryMap
  pub max_entries : ℕ
  pub default_ttl : ℕ

unfoldable pub new : ℕ → ℕ → ExactCache
new max_entries default_ttl = record {
  map = [];
  max_entries = max_entries;
  default_ttl = default_ttl;
}

unfoldable pub get : ℕ → ExactCache → ℕ → ExactCache × Option UnifiedResponse
get now c hash = elim (Maps.lookup hash c.map) [
  | none ↦ (c, none)
  | some e ↦
      if is_expired now e
      then (record c { map = Maps.remove hash c.map }, none)
      else (record c { map = Maps.insert hash (bump e) c.map }, some e.response)
]

-- `while self.map.len() >= self.max_entries && evict_attempts < 5`, by the attempts left.
unfoldable pub make_room : ℕ → ℕ → ℕ → EntryMap → EntryMap
make_room now max_entries zero m = m
make_room now max_entries (suc attempts) m =
    let rest = make_room now max_entries attempts (evict_lfu now m) in
    if leb max_entries (length m) then rest else m

-- What `insert_with_ttl` and `insert_warm` share: evict, then insert.
unfoldable pub insert_entry : ℕ → ExactCache → ℕ → CacheEntry → ExactCache
insert_entry now c hash e = record c {
  map = Maps.insert hash e (make_room now c.max_entries 5 c.map);
}

unfoldable pub insert_with_ttl : ℕ → ExactCache → ℕ → UnifiedResponse → ℕ → ExactCache
unfolding insert_entry
insert_with_ttl now c hash response ttl =
    insert_entry now c hash
      (record { response = response; hit_count = 0; created_at = now; ttl = ttl })

unfoldable pub insert : ℕ → ExactCache → ℕ → UnifiedResponse → ExactCache
unfolding insert_with_ttl
insert now c hash response = insert_with_ttl now c hash response c.default_ttl

unfoldable pub insert_warm : ℕ → ExactCache → ℕ → UnifiedResponse → ℕ → ExactCache
unfolding insert_entry
insert_warm now c hash response hit_count =
    insert_entry now c hash
      (record { response = response; hit_count = hit_count; created_at = now; ttl = c.default_ttl })

-- `ttl.as_secs()`, of nanoseconds.
abbrev pub dump_entry : ℕ × CacheEntry → CacheDumpEntry
dump_entry (hash, e) = record {
  hash = hash;
  response = e.response;
  hit_count = e.hit_count;
  ttl_secs = e.ttl / 1000000000;
}

abbrev pub more_hits : CacheDumpEntry → CacheDumpEntry → Bool
more_hits a b = leb b.hit_count a.hit_count

-- The entries that have not expired, in the form of the dump.
unfoldable pub live_entries : ℕ → EntryMap → List CacheDumpEntry
live_entries now m = map dump_entry (filter (λ e. not (is_expired now e.1)) m)

unfoldable pub top_by_hit_count : ℕ → ExactCache → ℕ → List CacheDumpEntry
unfolding live_entries
top_by_hit_count now c n = take n (sort_by more_hits (live_entries now c.map))

unfoldable pub len : ExactCache → ℕ
len c = length c.map

unfoldable pub is_empty_cache : ExactCache → Bool
is_empty_cache c = is_empty c.map

unfoldable pub clear : ExactCache → ExactCache
clear c = record c { map = [] }
