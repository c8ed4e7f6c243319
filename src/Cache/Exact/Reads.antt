-- ===== src/Cache/Exact/Reads.antt =====
-- What a lookup returns after an insertion, and what it changes.
use neu_rust.Prelude.Keys.{nat_eq, text_eq}
use neu_rust.Prelude.{
  ◌≡◌, ◌≤◌, ◌<◌, ◌-◌, ◌≢◌, ◌==◌, if◌then◌else◌, arith, inl, inr, false, none, some, ℕ, Option,
  Option-cases, Bool-cases, length, suc,
}
use neu_rust.Prelude.Maps
use neu_rust.Cache.Exact.{get, insert_with_ttl, ExactCache, insert_entry, make_room}
use neu_rust.Cache.Entry.{CacheEntry, EntryMap, is_expired, bump}
use neu_rust.Contracts.{UnifiedResponse}
use neu_rust.Prelude.Maps.{lookup-insert_self, lookup-insert_ne}

-- A stored entry is returned while its time to live has not run out, and counts the hit.
get_of_stored :
    (now : ℕ) (c : ExactCache) (hash : ℕ) (e : CacheEntry)
    → Maps.lookup hash c.map ≡ some e
    → is_expired now e ≡ false
    → get now c hash ≡ (record c { map = Maps.insert hash (bump e) c.map }, some e.response)
unfolding get
get_of_stored now c hash e found fresh = rw (found, get, fresh)

-- A response that was inserted with a time to live is what a `get` of its hash returns, as long as
-- no more than the time to live has passed; whatever the cache held, full or not.
pub get-insert_with_ttl :
    (now later : ℕ) (c : ExactCache) (hash : ℕ) (response : UnifiedResponse) (ttl : ℕ)
    → later - now ≤ ttl
    → (get later (insert_with_ttl now c hash response ttl) hash).1 ≡ some response
unfolding insert_with_ttl
get-insert_with_ttl now later c hash response ttl h =
    let e : CacheEntry = record {
      response = response;
      hit_count = 0;
      created_at = now;
      ttl = ttl;
    } in
    rw (
      get_of_stored later (insert_entry now c hash e) hash e
        (unfold insert_entry in lookup-insert_self hash e (make_room now c.max_entries 5 c.map))
        (ground arith))

-- A lookup that misses because the entry has expired removes that entry and changes nothing else;
-- one that hits only counts; one of an unknown hash changes nothing.
pub data GetEffect (now hash : ℕ) (c : ExactCache)
    : ExactCache × Option UnifiedResponse → Type 0 where
  missing : Maps.lookup hash c.map ≡ none → GetEffect now hash c (c, none)
  stale :
      (e : CacheEntry) (m : EntryMap)
      → Maps.lookup hash c.map ≡ some e
      → e.ttl < now - e.created_at
      → ((j : ℕ) → Maps.lookup j m ≡ (if hash == j then none else Maps.lookup j c.map))
      → GetEffect now hash c (record c { map = m }, none)
  hit :
      (e : CacheEntry) (m : EntryMap)
      → Maps.lookup hash c.map ≡ some e
      → now - e.created_at ≤ e.ttl
      → ((j : ℕ) → Maps.lookup j m ≡ (if hash == j then some (bump e) else Maps.lookup j c.map))
      → GetEffect now hash c (record c { map = m }, some e.response)

-- Every `get` has one of three effects. An unknown hash: nothing, and no change. An entry older
-- than its time to live: nothing, and this entry alone is removed. Otherwise the stored response,
-- and this entry alone counts one hit more.
pub get-GetEffect : (now : ℕ) (c : ExactCache) (hash : ℕ) → GetEffect now hash c (get now c hash)
unfolding get
get-GetEffect now c hash = elim (Option-cases (Maps.lookup hash c.map)) [
  | inl absent ↦ rw (absent, get) (missing absent)
  | inr (e, found) ↦ elim (Bool-cases (is_expired now e)) [
    | inl old ↦
        rw (found, get, old)
          (stale e (Maps.remove hash c.map) found (ground arith)
            (λ j. Maps.lookup-remove hash j c.map))
    | inr fresh ↦
        rw (found, get, fresh)
          (hit e (Maps.insert hash (bump e) c.map) found (ground arith)
            (λ j. Maps.lookup-insert hash j (bump e) c.map))
  ]
]

pub make_room_of_lt :
    (now limit attempts : ℕ) (m : EntryMap)
    → length m < limit
    → make_room now limit (suc attempts) m ≡ m
unfolding make_room
make_room_of_lt now limit attempts m h = ground arith

-- Below the limit an insertion evicts nothing: every other hash keeps its entry.
pub insert_with_ttl-keeps :
    (now : ℕ) (c : ExactCache) (hash j : ℕ) (response : UnifiedResponse) (ttl : ℕ)
    → length c.map < c.max_entries
    → hash ≢ j
    → Maps.lookup j (insert_with_ttl now c hash response ttl).map ≡ Maps.lookup j c.map
unfolding insert_with_ttl insert_entry
insert_with_ttl-keeps now c hash j response ttl h other =
    rw (make_room_of_lt now c.max_entries 4 c.map h) (lookup-insert_ne hash j _ c.map other)
