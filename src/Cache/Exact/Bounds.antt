-- ===== src/Cache/Exact/Bounds.antt =====
-- The size of the exact cache over any sequence of calls.
use neu_rust.Prelude.Keys.{nat_eq, text_eq}
use neu_rust.Prelude.Maps
use neu_rust.Cache.Exact.{
  get, insert, new, ExactCache, insert_entry, insert_with_ttl, make_room, insert_warm, clear,
}
use neu_rust.Prelude.{
  max, ℕ, List, Option-cases, [], arith, inl, length, suc, ◌∷◌, ◌≡◌, inr, some, ◌≤◌, Bool-cases,
  ◌+◌, ◌-◌, refl, zero,
}
use neu_rust.Cache.Eviction.{evict_lfu}
use neu_rust.Prelude.Maps.{
  Distinct, length-insert, Distinct-insert, Distinct-remove, length-insert-le, length-remove-le,
}
use neu_rust.Cache.Entry.{CacheEntry, EntryMap, is_expired, bump}
use neu_rust.Contracts.{UnifiedResponse}
use neu_rust.Cache.Eviction.Laws.{Distinct-evict_lfu, length-evict_lfu}

pub record IsBounded (c : ExactCache) : Type 0 where
  pub distinct : Distinct c.map
  pub bounded : length c.map ≤ max c.max_entries 1

Distinct-make_room :
    (now limit attempts : ℕ) (m : EntryMap) → Distinct m → Distinct (make_room now limit attempts m)
unfolding make_room
Distinct-make_room now limit zero m d = d
Distinct-make_room now limit (suc attempts) m d =
    ground
      (arith, Distinct-make_room now limit attempts (evict_lfu now m) (Distinct-evict_lfu now m d))

evict_lfu-nil : (now : ℕ) → evict_lfu now [] ≡ []
unfolding evict_lfu
evict_lfu-nil now = refl

length-evict_lfu-le :
    (now n : ℕ) (m : EntryMap) → Distinct m → length m ≤ suc n → length (evict_lfu now m) ≤ n
length-evict_lfu-le now n [] d h = rw evict_lfu-nil (omega arith)
length-evict_lfu-le now n (x ∷ m) d h = omega (arith, length-evict_lfu now (x ∷ m) d (omega arith))

-- Five attempts make room for one more entry, as long as no more than four are too many.
pub length-make_room :
    (now limit attempts : ℕ) (m : EntryMap)
    → Distinct m
    → length m ≤ limit - 1 + attempts
    → length (make_room now limit attempts m) ≤ limit - 1
unfolding make_room
length-make_room now limit zero m d h = omega arith
length-make_room now limit (suc attempts) m d h = ground (
  arith,
  length-make_room now limit attempts (evict_lfu now m) (Distinct-evict_lfu now m d)
      (length-evict_lfu-le now (limit - 1 + attempts) m d (omega arith)),
)

-- An insertion into a map that the limit was met in, or that a race left up to four entries over
-- it, leaves at most `max_entries` entries; at least one, since the new entry always goes in.
pub insert_entry-IsBounded :
    (now : ℕ) (c : ExactCache) (hash : ℕ) (e : CacheEntry)
    → Distinct c.map
    → length c.map ≤ c.max_entries + 4
    → IsBounded (insert_entry now c hash e)
unfolding insert_entry
insert_entry-IsBounded now c hash e d h =
    let room : EntryMap = make_room now c.max_entries 5 c.map in
    record {
      distinct = Distinct-insert hash e room (Distinct-make_room now c.max_entries 5 c.map d);
      bounded = omega (
        arith,
        length-insert-le hash e room,
        length-make_room now c.max_entries 5 c.map d (omega arith),
      );
    }

length-insert_known :
    (k : ℕ) (v w : CacheEntry) (m : EntryMap)
    → Maps.lookup k m ≡ some w
    → length (Maps.insert k v m) ≡ length m
length-insert_known k v w m h = ground (arith, length-insert k v m)

get-IsBounded : (now : ℕ) (c : ExactCache) (hash : ℕ) → IsBounded c → IsBounded (get now c hash).0
unfolding get
get-IsBounded now c hash b = elim (Option-cases (Maps.lookup hash c.map)) [
  | inl miss ↦ rw (miss, get) b
  | inr (e, hit) ↦ elim (Bool-cases (is_expired now e)) [
    | inl old ↦
        rw (hit, get, old)
          (record {
            distinct = Distinct-remove hash c.map b.distinct;
            bounded = omega (arith, length-remove-le hash c.map, b.bounded);
          })
    | inr fresh ↦
        rw (hit, get, fresh)
          (record {
            distinct = Distinct-insert hash (bump e) c.map b.distinct;
            bounded = omega (arith, length-insert_known hash (bump e) e c.map hit, b.bounded);
          })
  ]
]

-- A call of the cache, with the time at which it is made.
pub data Call : Type 0 where
  get_call : ℕ → ℕ → Call
  insert_call : ℕ → ℕ → UnifiedResponse → Call
  ttl_call : ℕ → ℕ → UnifiedResponse → ℕ → Call
  warm_call : ℕ → ℕ → UnifiedResponse → ℕ → Call
  clear_call : Call

unfoldable pub step : ExactCache → Call → ExactCache
step c (get_call now hash) = (get now c hash).0
step c (insert_call now hash r) = insert now c hash r
step c (ttl_call now hash r ttl) = insert_with_ttl now c hash r ttl
step c (warm_call now hash r hits) = insert_warm now c hash r hits
step c clear_call = clear c

unfoldable pub run : ExactCache → List Call → ExactCache
run c [] = c
run c (call ∷ calls) = run (step c call) calls

step-IsBounded : (c : ExactCache) (call : Call) → IsBounded c → IsBounded (step c call)
unfolding step insert insert_with_ttl insert_warm clear
step-IsBounded c (get_call now hash) b = get-IsBounded now c hash b
step-IsBounded c (insert_call now hash r) b =
    insert_entry-IsBounded now c hash _ b.distinct (omega (arith, b.bounded))
step-IsBounded c (ttl_call now hash r ttl) b =
    insert_entry-IsBounded now c hash _ b.distinct (omega (arith, b.bounded))
step-IsBounded c (warm_call now hash r hits) b =
    insert_entry-IsBounded now c hash _ b.distinct (omega (arith, b.bounded))
step-IsBounded c clear_call b = record { distinct = tt; bounded = omega arith }

run-IsBounded_from : (c : ExactCache) (calls : List Call) → IsBounded c → IsBounded (run c calls)
unfolding run
run-IsBounded_from c [] b = b
run-IsBounded_from c (call ∷ calls) b =
    run-IsBounded_from (step c call) calls (step-IsBounded c call b)

-- Whatever calls are made of a new cache, no hash stands twice in it, and it holds at most
-- `max_entries` entries, or one if that is zero.
pub run-IsBounded :
    (max_entries default_ttl : ℕ) (calls : List Call)
    → IsBounded (run (new max_entries default_ttl) calls)
unfolding new
run-IsBounded max_entries default_ttl calls =
    run-IsBounded_from _ calls (record { distinct = tt; bounded = omega arith })
