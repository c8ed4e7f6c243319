-- ===== src/Cache/Entry.antt =====
-- The entries of the exact cache, cache/exact_cache.rs. Times and durations are nanoseconds of the
-- monotonic clock; a method takes the time of its call.
use neu_rust.Prelude.{ℕ, ◌-◌, ◌+◌, ◌%◌, Bool, List, ltb}
use neu_rust.Contracts.{UnifiedResponse}

pub record CacheEntry : Type 0 where
  pub response : UnifiedResponse
  pub hit_count : ℕ
  pub created_at : ℕ
  pub ttl : ℕ

-- The map from hashes to entries, in the order of its iteration.
abbrev pub EntryMap : Type 0
EntryMap = List (ℕ × CacheEntry)

-- `created_at.elapsed() > ttl`; `elapsed` saturates at zero, as `-` does.
abbrev pub is_expired : ℕ → CacheEntry → Bool
is_expired now e = ltb e.ttl (now - e.created_at)

-- `hit_count.fetch_add(1)`, which wraps.
abbrev pub bump : CacheEntry → CacheEntry
bump e = record e { hit_count = (e.hit_count + 1) % 0x10000000000000000 }

pub record CacheDumpEntry : Type 0 where
  pub hash : ℕ
  pub response : UnifiedResponse
  pub hit_count : ℕ
  pub ttl_secs : ℕ
