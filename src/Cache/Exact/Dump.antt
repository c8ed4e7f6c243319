-- ===== src/Cache/Exact/Dump.antt =====
-- The entries that a dump holds, against the cache.
use neu_rust.Prelude.Keys.{nat_eq, text_eq}
use neu_rust.Prelude.{
  ◌≡◌, ◌≤◌, ◌∷◌, ◌++◌, ◌==◌, [], arith, inl, inr, true, false, zero, suc, some, ℕ, List, All,
  length, drop, take, All-drop, All-take, In, Bool-cases, take-append-drop, ==_iff, ◌⊎◌, none, ◌∙◌,
  ap, min,
}
use neu_rust.Prelude.Maps
use mathlib.Core.List.{Perm}
use neu_rust.Prelude.Sort.{
  IsOrder, IsSorted, sort_by, sort_by-IsSorted, sort_by-perm, length-sort_by,
}
use neu_rust.Cache.Entry.{CacheDumpEntry, CacheEntry, EntryMap, is_expired}
use neu_rust.Cache.Exact.{live_entries, top_by_hit_count, ExactCache, more_hits, dump_entry}
use neu_rust.Prelude.Maps.{Distinct}

more_hits-IsOrder : IsOrder more_hits
more_hits-IsOrder = record { total = λ a b. ground arith; trans = λ a b c h k. ground arith }

-- The dump is an excerpt by hits: `n` entries, or all if there are fewer, in falling order of hits,
-- and no entry left out has more hits than an entry taken.
pub record IsTop (n : ℕ) (all taken : List CacheDumpEntry) : Type 0 where
  pub count : length taken ≡ min n (length all)
  pub sorted : IsSorted more_hits taken
  pub rest : List CacheDumpEntry
  pub partition : Perm (taken ++ rest) all
  pub hottest : All (λ d. All (λ r. r.hit_count ≤ d.hit_count) rest) taken

length-take : {A : Type 0} (n : ℕ) (xs : List A) → length (take n xs) ≡ min n (length xs)
length-take zero xs = omega arith
length-take (suc n) [] = omega arith
length-take (suc n) (x ∷ xs) = omega (arith, length-take n xs)

take-IsSorted :
    (n : ℕ) (xs : List CacheDumpEntry) → IsSorted more_hits xs → IsSorted more_hits (take n xs)
take-IsSorted zero xs h = tt
take-IsSorted (suc n) [] h = tt
take-IsSorted (suc n) (x ∷ xs) h = (All-take _ n xs h.0, take-IsSorted n xs h.1)

All-fewer :
    (d : CacheDumpEntry) (xs : List CacheDumpEntry)
    → All (λ y. more_hits d y ≡ true) xs
    → All (λ r. r.hit_count ≤ d.hit_count) xs
All-fewer d [] h = tt
All-fewer d (x ∷ xs) h = (ground arith, All-fewer d xs h.1)

take-hottest :
    (n : ℕ) (xs : List CacheDumpEntry)
    → IsSorted more_hits xs
    → All (λ d. All (λ r. r.hit_count ≤ d.hit_count) (drop n xs)) (take n xs)
take-hottest zero xs h = tt
take-hottest (suc n) [] h = tt
take-hottest (suc n) (x ∷ xs) h = (All-drop _ n xs (All-fewer x xs h.0), take-hottest n xs h.1)

-- `top_by_hit_count` takes `n` of the entries that have not expired, or all of them if there are
-- fewer, in falling order of hits, and leaves out none that has more hits than one it takes.
pub top_by_hit_count-IsTop :
    (now : ℕ) (c : ExactCache) (n : ℕ) → IsTop n (live_entries now c.map) (top_by_hit_count now c n)
unfolding top_by_hit_count
top_by_hit_count-IsTop now c n =
    let sorted : List CacheDumpEntry = sort_by more_hits (live_entries now c.map) in
    let order = sort_by-IsSorted more_hits more_hits-IsOrder (live_entries now c.map) in
    record {
      count = length-take n sorted ∙ ap (min n) (length-sort_by more_hits (live_entries now c.map));
      sorted = take-IsSorted n sorted order;
      rest = drop n sorted;
      partition = rw (take-append-drop n sorted) (sort_by-perm more_hits (live_entries now c.map));
      hottest = take-hottest n sorted order;
    }

-- An entry of the cache that has not expired stands in the list of the dump.
pub In-live_entries :
    (now k : ℕ) (e : CacheEntry) (m : EntryMap)
    → Maps.lookup k m ≡ some e
    → is_expired now e ≡ false
    → In (dump_entry (k, e)) (live_entries now m)
unfolding live_entries Maps.lookup
In-live_entries now k e [] h f = cc
In-live_entries now k e ((i, w) ∷ m) h f = elim (Bool-cases (i == k)) [
  | inl same ↦
      let key : i ≡ k = (==_iff i k).0 same in let val : w ≡ e = ground arith in ground arith
  | inr other ↦ ground (arith, In-live_entries now k e m)
]

-- Every entry of the dump with its hash is that entry.
pub All-live_entries :
    (now k : ℕ) (e : CacheEntry) (m : EntryMap)
    → Distinct m
    → (Maps.lookup k m ≡ none) ⊎ (Maps.lookup k m ≡ some e)
    → All (λ d. d.hash ≡ k → d ≡ dump_entry (k, e)) (live_entries now m)
unfolding live_entries Maps.lookup
All-live_entries now k e [] d h = tt
All-live_entries now k e ((i, w) ∷ m) d h =
    let rest : All (λ r. r.hash ≡ k → r ≡ dump_entry (k, e)) (live_entries now m) =
      All-live_entries now k e m d.1 (ground arith) in
    elim (Bool-cases (is_expired now w)) [
      | inl old ↦ rw old rest
      | inr fresh ↦ rw fresh (λ same. ground arith, rest)
    ]

pub length-live_entries-le : (now : ℕ) (m : EntryMap) → length (live_entries now m) ≤ length m
unfolding live_entries
length-live_entries-le now [] = omega arith
length-live_entries-le now ((i, w) ∷ m) = ground (arith, length-live_entries-le now m)
