-- ===== src/Cache/Eviction/Batch.antt =====
-- How many entries a batch eviction takes away.
use neu_rust.Prelude.{
  ◌≡◌, ◌+◌, ◌∷◌, ◌||◌, ◌==◌, [], refl, arith, inl, inr, true, false, zero, suc, List, ℕ, take, All,
  length, Bool-cases, ◌≤◌, ◌<◌, ◌-◌, ◌∙◌, min, sym, All-take, leb, length-map, leb→le,
}
use neu_rust.Prelude.Keys.{nat_eq, text_eq}
use neu_rust.Prelude.Maps.{
  lookup, contains_key, Distinct, keys, remove, remove_all, has_key, lookup-remove, length-remove,
  Distinct-remove,
}
use neu_rust.Cache.Eviction.{
  expired_keys, fewer_hits, evict_coldest, evict_lfu_batch, remove_expired,
}
use neu_rust.Prelude.Sort.{insert_by, sort_by, length-sort_by}
use neu_rust.Cache.Entry.{CacheEntry, EntryMap, is_expired}
use neu_rust.Cache.Eviction.Laws.{has_key-expired_keys_absent}

-- No key stands twice in the list.
abbrev Unrepeated : List ℕ → Type 0
Unrepeated [] = Unit
Unrepeated (k ∷ ks) = (has_key k ks ≡ false) × Unrepeated ks

abbrev Present : List ℕ → EntryMap → Type 0
Present ks m = All (λ k. contains_key k m ≡ true) ks

Present-remove :
    (k : ℕ) (ks : List ℕ) (m : EntryMap)
    → has_key k ks ≡ false
    → Present ks m
    → Present ks (remove k m)
Present-remove k [] m h p = tt
Present-remove k (j ∷ ks) m h p =
    (ground (arith, lookup-remove k j m, p.0), Present-remove k ks m (ground arith) p.1)

-- Removing keys that are there, none twice, makes the map smaller by their number.
length-remove_all-Present :
    (ks : List ℕ) (m : EntryMap)
    → Unrepeated ks
    → Present ks m
    → Distinct m
    → length (remove_all ks m) + length ks ≡ length m
unfolding remove_all
length-remove_all-Present [] m u p d = omega arith
length-remove_all-Present (k ∷ ks) m u p d =
    let ih =
      length-remove_all-Present ks (remove k m) u.1 (Present-remove k ks m u.0 p.1)
        (Distinct-remove k m d) in
    let one = length-remove k m d in
    let less : length m ≡ suc (length (remove k m)) = rw (p.0) at one in omega (arith, ih, less)

has_key-take : (k n : ℕ) (ks : List ℕ) → has_key k ks ≡ false → has_key k (take n ks) ≡ false
has_key-take k zero ks h = refl
has_key-take k (suc n) [] h = refl
has_key-take k (suc n) (j ∷ ks) h = ground (arith, has_key-take k n ks)

Unrepeated-take : (n : ℕ) (ks : List ℕ) → Unrepeated ks → Unrepeated (take n ks)
Unrepeated-take zero ks u = tt
Unrepeated-take (suc n) [] u = tt
Unrepeated-take (suc n) (k ∷ ks) u = (has_key-take k n ks u.0, Unrepeated-take n ks u.1)

-- The keys that have expired.
Unrepeated-expired_keys : (now : ℕ) (m : EntryMap) → Distinct m → Unrepeated (expired_keys now m)
unfolding expired_keys
Unrepeated-expired_keys now [] d = tt
Unrepeated-expired_keys now ((k, w) ∷ m) d = elim (Bool-cases (is_expired now w)) [
  | inl old ↦
      rw (expired_keys, old)
        (has_key-expired_keys_absent now k m d.0, Unrepeated-expired_keys now m d.1)
  | inr fresh ↦ rw (expired_keys, fresh) (Unrepeated-expired_keys now m d.1)
]

Present-cons :
    (k : ℕ) (w : CacheEntry) (ks : List ℕ) (m : EntryMap) → Present ks m → Present ks ((k, w) ∷ m)
unfolding lookup
Present-cons k w [] m p = tt
Present-cons k w (j ∷ ks) m p = (ground (arith, p.0), Present-cons k w ks m p.1)

Present-expired_keys : (now : ℕ) (m : EntryMap) → Present (expired_keys now m) m
unfolding expired_keys lookup
Present-expired_keys now [] = tt
Present-expired_keys now ((k, w) ∷ m) =
    let rest = Present-cons k w (expired_keys now m) m (Present-expired_keys now m) in
    elim (Bool-cases (is_expired now w)) [
      | inl old ↦ rw (expired_keys, old) (ground arith, rest)
      | inr fresh ↦ rw (expired_keys, fresh) rest
    ]

-- The keys sorted by their hits.
has_key-insert_by :
    (j : ℕ) (x : ℕ × CacheEntry) (m : EntryMap)
    → has_key j (keys (insert_by fewer_hits x m)) ≡ (x.0 == j || has_key j (keys m))
unfolding insert_by
has_key-insert_by j x [] = refl
has_key-insert_by j x (y ∷ m) = ground (arith, has_key-insert_by j x m)

Unrepeated-insert_by :
    (x : ℕ × CacheEntry) (m : EntryMap)
    → has_key x.0 (keys m) ≡ false
    → Unrepeated (keys m)
    → Unrepeated (keys (insert_by fewer_hits x m))
unfolding insert_by
Unrepeated-insert_by x [] h u = (refl, tt)
Unrepeated-insert_by x (y ∷ m) h u = elim (Bool-cases (fewer_hits x y)) [
  | inl here ↦ rw here (h, u)
  | inr later ↦
      rw later
        (ground (arith, has_key-insert_by y.0 x m), Unrepeated-insert_by x m (ground arith) u.1)
]

has_key-sort_by :
    (j : ℕ) (m : EntryMap) → has_key j (keys (sort_by fewer_hits m)) ≡ contains_key j m
unfolding sort_by lookup
has_key-sort_by j [] = refl
has_key-sort_by j (x ∷ m) =
    ground (arith, has_key-insert_by j x (sort_by fewer_hits m), has_key-sort_by j m)

Unrepeated-sort_by : (m : EntryMap) → Distinct m → Unrepeated (keys (sort_by fewer_hits m))
unfolding sort_by
Unrepeated-sort_by [] d = tt
Unrepeated-sort_by (x ∷ m) d =
    Unrepeated-insert_by x (sort_by fewer_hits m) (ground (arith, has_key-sort_by x.0 m, d.0))
      (Unrepeated-sort_by m d.1)

Present-of_has_key :
    (ks : List ℕ) (m : EntryMap)
    → ((j : ℕ) → has_key j ks ≡ true → contains_key j m ≡ true)
    → Present ks m
Present-of_has_key [] m h = tt
Present-of_has_key (k ∷ ks) m h =
    (h k (ground arith), Present-of_has_key ks m (λ j inside. h j (ground arith)))

Present-sort_by : (m : EntryMap) → Present (keys (sort_by fewer_hits m)) m
Present-sort_by m =
    Present-of_has_key (keys (sort_by fewer_hits m)) m
      (λ j inside. sym (has_key-sort_by j m) ∙ inside)

length-take : (n : ℕ) (ks : List ℕ) → length (take n ks) ≡ min n (length ks)
length-take zero ks = omega arith
length-take (suc n) [] = omega arith
length-take (suc n) (k ∷ ks) = omega (arith, length-take n ks)

length-evict_coldest :
    (remaining : ℕ) (m : EntryMap)
    → Distinct m
    → length (evict_coldest remaining m) ≡ length m - remaining
unfolding evict_coldest
length-evict_coldest remaining m d =
    let ks = keys (sort_by fewer_hits m) in
    let gone =
      length-remove_all-Present (take remaining ks) m
        (Unrepeated-take remaining ks (Unrepeated-sort_by m d))
        (All-take (λ k. contains_key k m ≡ true) remaining ks (Present-sort_by m)) d in
    let taken = length-take remaining ks in
    let all : length ks ≡ length m =
      length-map (sort_by fewer_hits m) (λ e. e.0) ∙ length-sort_by fewer_hits m in
    omega (arith, gone, taken, all)

-- What the first loop leaves, and what it counts.
remove_expired_lem :
    (count : ℕ) (ks : List ℕ) (removed : ℕ) (m : EntryMap)
    → Unrepeated ks
    → Present ks m
    → Distinct m
    → removed < count
    → let (m', n, returned) = remove_expired count ks removed m in
      (length m' + n ≡ length m + removed) × Distinct m' × (n ≤ count) × (returned ≡ leb count n)
unfolding remove_expired
remove_expired_lem count [] removed m u p d h = (refl, d, omega arith, ground arith)
remove_expired_lem count (k ∷ ks) removed m u p d h =
    let one = length-remove k m d in
    let less : length m ≡ suc (length (remove k m)) = rw (p.0) at one in
    elim (Bool-cases (leb count (removed + 1))) [
      | inl full ↦ rw full (omega (arith, less), Distinct-remove k m d, omega (arith, h), sym full)
      | inr more ↦
          let (total, distinct, low, flag) =
            remove_expired_lem count ks (removed + 1) (remove k m) u.1
              (Present-remove k ks m u.0 p.1) (Distinct-remove k m d) (ground arith) in
          rw more (omega (arith, total, less), distinct, low, flag)
    ]

-- On distinct hashes a batch eviction of a count that is not 0 takes away exactly that many
-- entries, or all if there are fewer, however many have expired.
pub length-evict_lfu_batch :
    (now count : ℕ) (m : EntryMap)
    → Distinct m
    → 0 < count
    → length (evict_lfu_batch now count m) ≡ length m - count
unfolding evict_lfu_batch
length-evict_lfu_batch now count m d h =
    let out = remove_expired count (expired_keys now m) 0 m in
    let (total, distinct, low, flag) =
      remove_expired_lem count (expired_keys now m) 0 m (Unrepeated-expired_keys now m d)
        (Present-expired_keys now m) d h in
    elim (Bool-cases out.2) [
      | inl returned ↦
          let enough : count ≤ out.1 = leb→le count out.1 (sym flag ∙ returned) in
          rw returned (omega (arith, total, low, enough))
      | inr short ↦
          let rest = length-evict_coldest (count - out.1) out.0 distinct in
          rw short (omega (arith, total, low, rest))
    ]
