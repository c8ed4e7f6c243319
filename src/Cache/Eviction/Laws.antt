-- ===== src/Cache/Eviction/Laws.antt =====
-- What one eviction does to the cache, against a description by its entries.
use neu_rust.Prelude.{
  ℕ, ◌≤◌, ◌≡◌, refl, [], ◌∷◌, none, some, arith, ltb, if◌then◌else◌, All, In, inl, Option, any,
  Bool, Bool-cases, List, is_empty, false, length, not, true, inr, ◌<◌, ◌⊎◌,
}
use mathlib.Core.Path.{subst}
use neu_rust.Prelude.Keys.{nat_eq, beq_self, text_eq}
use neu_rust.Prelude.Maps.{
  lookup, Distinct, lookup_of_In, lookup-remove, remove_all, Distinct-remove_all, has_key,
  lookup-remove_all, Distinct-remove, length-remove-lt, length-remove_all-le, remove,
}
use neu_rust.Cache.Entry.{CacheEntry, EntryMap, is_expired}
use neu_rust.Cache.Eviction.{min_from, min_by_hits, evict_least, evict_lfu, expired_keys}

-- The entries with at least as many hits.
abbrev pub AtMost : CacheEntry → EntryMap → Type 0
AtMost e m = All (λ x. e.hit_count ≤ x.1.hit_count) m

min_from-In : (b : ℕ × CacheEntry) (m : EntryMap) → In (min_from b m) (b ∷ m)
unfolding min_from
min_from-In b [] = inl refl
min_from-In b (x ∷ m) = ground (arith, min_from-In b m, min_from-In x m)

min_from-le_best : (b : ℕ × CacheEntry) (m : EntryMap) → (min_from b m).1.hit_count ≤ b.1.hit_count
unfolding min_from
min_from-le_best b [] = omega arith
min_from-le_best b (x ∷ m) = ground (arith, min_from-le_best b m, min_from-le_best x m)

min_from-AtMost : (b : ℕ × CacheEntry) (m : EntryMap) → AtMost (min_from b m).1 m
unfolding min_from
min_from-AtMost b [] = tt
min_from-AtMost b (x ∷ m) =
    let best : ℕ × CacheEntry = if ltb x.1.hit_count b.1.hit_count then x else b in
    (ground (arith, min_from-le_best best m), min_from-AtMost best m)

min_by_hits_sound :
    (m : EntryMap) (v : ℕ × CacheEntry) → min_by_hits m ≡ some v → In v m × AtMost v.1 m
unfolding min_by_hits
min_by_hits_sound [] v h = cc
min_by_hits_sound (x ∷ m) v h =
    let e : min_from x m ≡ v = ground arith in
    subst (λ w. In w (x ∷ m) × AtMost w.1 (x ∷ m)) e
      (min_from-In x m, (min_from-le_best x m, min_from-AtMost x m))

-- An entry that no other has fewer hits than was taken away, and nothing else changed.
pub record EvictsLeast (m m' : EntryMap) : Type 0 where
  pub victim : ℕ
  pub entry : CacheEntry
  pub present : lookup victim m ≡ some entry
  pub least : AtMost entry m
  pub others : (j : ℕ) → lookup j m' ≡ (if (nat_eq).beq victim j then none else lookup j m)

pub evict_least-EvictsLeast :
    (x : ℕ × CacheEntry) (m : EntryMap)
    → Distinct (x ∷ m)
    → EvictsLeast (x ∷ m) (evict_least (x ∷ m))
unfolding evict_least
evict_least-EvictsLeast x m d =
    let (inside, low) = min_by_hits_sound (x ∷ m) (min_from x m) refl in
    record {
      victim = (min_from x m).0;
      entry = (min_from x m).1;
      present = lookup_of_In (min_from x m) (x ∷ m) d inside;
      least = low;
      others = λ j. lookup-remove (min_from x m).0 j (x ∷ m);
    }

-- What remains of a lookup when the expired entries are gone.
abbrev pub live : ℕ → Option CacheEntry → Option CacheEntry
live now none = none
live now (some e) = if is_expired now e then none else some e

abbrev pub expired_at : ℕ → Option CacheEntry → Bool
expired_at now none = false
expired_at now (some e) = is_expired now e

pub has_key-expired_keys_absent :
    (now k : ℕ) (m : EntryMap) → lookup k m ≡ none → has_key k (expired_keys now m) ≡ false
unfolding lookup expired_keys
has_key-expired_keys_absent now k [] h = refl
has_key-expired_keys_absent now k ((i, w) ∷ m) h =
    ground (arith, has_key-expired_keys_absent now k m)

pub has_key-expired_keys :
    (now k : ℕ) (m : EntryMap)
    → Distinct m
    → has_key k (expired_keys now m) ≡ expired_at now (lookup k m)
unfolding lookup expired_keys
has_key-expired_keys now k [] d = refl
has_key-expired_keys now k ((i, w) ∷ m) d = ground (
  arith,
  has_key-expired_keys now k m,
  has_key-expired_keys_absent now i m,
  has_key-expired_keys_absent now k m,
)

is_empty-expired_keys :
    (now : ℕ) (m : EntryMap) → is_empty (expired_keys now m) ≡ not (any (λ e. is_expired now e.1) m)
unfolding expired_keys
is_empty-expired_keys now [] = refl
is_empty-expired_keys now ((i, w) ∷ m) = ground (arith, is_empty-expired_keys now m)

-- What one call of `evict_lfu` promises: to take away the entries that have expired, if there are
-- any, and otherwise a least used one.
abbrev pub Evicts : ℕ → EntryMap → EntryMap → Type 0
Evicts now m m' =
    ((any (λ e. is_expired now e.1) m ≡ true) × ((j : ℕ) → lookup j m' ≡ live now (lookup j m)))
    ⊎ ((any (λ e. is_expired now e.1) m ≡ false) × EvictsLeast m m')

lookup-remove_all_expired :
    (now j : ℕ) (m : EntryMap)
    → Distinct m
    → lookup j (remove_all (expired_keys now m) m) ≡ live now (lookup j m)
lookup-remove_all_expired now j m d =
    ground (arith, lookup-remove_all (expired_keys now m) j m, has_key-expired_keys now j m d)

-- On a map that is not empty: if an entry has expired, `evict_lfu` takes away the expired entries
-- and nothing else; otherwise it takes away one entry that no other has fewer hits than.
pub evict_lfu-Evicts :
    (now : ℕ) (m : EntryMap) → Distinct m → 0 < length m → Evicts now m (evict_lfu now m)
unfolding evict_lfu
evict_lfu-Evicts now [] d h = absurd (omega arith)
evict_lfu-Evicts now (x ∷ m) d h = elim (Bool-cases (any (λ e. is_expired now e.1) (x ∷ m))) [
  | inl old ↦
      rw (is_empty-expired_keys now (x ∷ m), old)
        (inl (refl, λ j. lookup-remove_all_expired now j (x ∷ m) d))
  | inr fresh ↦
      rw (is_empty-expired_keys now (x ∷ m), fresh) (inr (refl, evict_least-EvictsLeast x m d))
]

Distinct-evict_least : (m : EntryMap) → Distinct m → Distinct (evict_least m)
unfolding evict_least
Distinct-evict_least [] d = tt
Distinct-evict_least (x ∷ m) d = Distinct-remove (min_from x m).0 (x ∷ m) d

pub Distinct-evict_lfu : (now : ℕ) (m : EntryMap) → Distinct m → Distinct (evict_lfu now m)
unfolding evict_lfu
Distinct-evict_lfu now m d =
    ground (arith, Distinct-remove_all (expired_keys now m) m d, Distinct-evict_least m d)

length-remove_all-lt :
    (ks : List ℕ) (m : EntryMap) (v : CacheEntry) (k : ℕ)
    → lookup k m ≡ some v
    → length (remove_all (k ∷ ks) m) < length m
unfolding remove_all
length-remove_all-lt ks m v k h =
    omega (arith, length-remove_all-le ks (remove k m), length-remove-lt k m v h)

length-evict_least :
    (x : ℕ × CacheEntry) (m : EntryMap)
    → Distinct (x ∷ m)
    → length (evict_least (x ∷ m)) < length (x ∷ m)
unfolding evict_least
length-evict_least x m d =
    let (inside, _) = min_by_hits_sound (x ∷ m) (min_from x m) refl in
    length-remove-lt (min_from x m).0 (x ∷ m) (min_from x m).1
      (lookup_of_In (min_from x m) (x ∷ m) d inside)

pub Option-of-expired_at :
    (now : ℕ) (o : Option CacheEntry) → expired_at now o ≡ true → (e : CacheEntry) × (o ≡ some e)
Option-of-expired_at now none h = cc
Option-of-expired_at now (some e) h = (e, refl)

-- Each call makes a cache that is not empty smaller.
pub length-evict_lfu :
    (now : ℕ) (m : EntryMap) → Distinct m → 0 < length m → length (evict_lfu now m) < length m
unfolding evict_lfu
length-evict_lfu now [] d h = absurd (omega arith)
length-evict_lfu now (x ∷ m) d h = shrink (expired_keys now (x ∷ m)) refl
  where
    shrink :
        (ks : List ℕ)
        → expired_keys now (x ∷ m) ≡ ks
        → length (if is_empty ks then evict_least (x ∷ m) else remove_all ks (x ∷ m))
          < length (x ∷ m)
    shrink [] e = length-evict_least x m d
    shrink (k ∷ ks) e =
        let (v, found) =
          Option-of-expired_at now (lookup k (x ∷ m))
            (ground (arith, has_key-expired_keys now k (x ∷ m) d, beq_self k)) in
        length-remove_all-lt ks (x ∷ m) v k found
