-- ===== src/Stores/Memory/Laws.antt =====
-- The store in memory is a log of cost events.
use neu_rust.Prelude.{
  map, true, false, inl, inr, refl, arith, if◌then◌else◌, Bool-cases, ◌≡◌, ◌<◌, ◌∷◌, ◌&&◌, ◌≢◌, ◌⊎◌,
  ◌∙◌, ◌==◌, [], none, some, List, ℕ, All, In, Bool, Option, ap, if-both, leb, sym, ==_iff, filter,
  get_or, ◌-◌, ◌*◌, All-In, and-left, and-right,
}
use neu_rust.Prelude.Keys.{nat_eq, text_eq}
use neu_rust.Prelude.Maps
use neu_rust.Stores.Memory.{group_by_day, push_cost, sum_by_day, memory_store}
use neu_rust.Prelude.Sort.{insert_by, sort_by, All-insert_by, In-of_In-sort_by, In-sort_by}
use neu_rust.Prelude.Float.{Arithmetic, F64}
use neu_rust.Stores.EventStore.{
  IsAscending, sum_from, day_of, cost_of_day, day_ms, is_recent, Implements, IsDailyCosts,
}
use neu_rust.Contracts.{CostEvent}

-- No number stands twice.
abbrev NoDuplicates : List ℕ → Type 0
NoDuplicates [] = Unit
NoDuplicates (x ∷ xs) = (In x xs → ⊥) × NoDuplicates xs

below-All : (x y : ℕ) (ys : List ℕ) → x < y → All (λ e. y < e) ys → All (λ e. x < e) ys
below-All x y [] xy h = tt
below-All x y (z ∷ ys) xy h = (omega (arith, h.0), below-All x y ys xy h.1)

insert_by-IsAscending :
    (x : ℕ) (ys : List ℕ) → (In x ys → ⊥) → IsAscending ys → IsAscending (insert_by leb x ys)
unfolding insert_by
insert_by-IsAscending x [] new h = (tt, tt)
insert_by-IsAscending x (y ∷ ys) new h =
    let apart : x ≢ y = λ e. new (inl e) in
    elim (Bool-cases (leb x y)) [
      | inl first ↦ let xy : x < y = ground arith in rw first ((xy, below-All x y ys xy h.0), h)
      | inr later ↦ rw later (
        All-insert_by leb (λ e. y < e) x ys (ground arith) h.0,
        insert_by-IsAscending x ys (λ m. new (inr m)) h.1,
      )
    ]

-- A sort of distinct numbers is ascending.
sort_by-IsAscending : (xs : List ℕ) → NoDuplicates xs → IsAscending (sort_by leb xs)
unfolding sort_by
sort_by-IsAscending [] h = tt
sort_by-IsAscending (x ∷ xs) h =
    insert_by-IsAscending x (sort_by leb xs) (λ m. h.0 (In-of_In-sort_by leb x xs m))
      (sort_by-IsAscending xs h.1)

-- The keys of a map are those that it finds.
In-keys : (k : ℕ) (m : List (ℕ × F64)) → Maps.lookup k m ≡ none → In k (Maps.keys m) → ⊥
unfolding Maps.lookup
In-keys k [] h member = member
In-keys k ((j, v) ∷ m) h member = elim (Bool-cases (j == k)) [
  | inl same ↦ ground (arith, rw same at h)
  | inr other ↦ elim member [
    | inl here ↦ ground arith
    | inr later ↦ In-keys k m (rw other at h) later
  ]
]

In-keys_of_found :
    (k : ℕ) (v : F64) (m : List (ℕ × F64)) → Maps.lookup k m ≡ some v → In k (Maps.keys m)
unfolding Maps.lookup
In-keys_of_found k v [] h = ground arith
In-keys_of_found k v ((j, w) ∷ m) h = elim (Bool-cases (j == k)) [
  | inl same ↦ inl (sym ((==_iff j k).0 same))
  | inr other ↦ inr (In-keys_of_found k v m (rw other at h))
]

Distinct-NoDuplicates : (m : List (ℕ × F64)) → Maps.Distinct m → NoDuplicates (Maps.keys m)
Distinct-NoDuplicates [] h = tt
Distinct-NoDuplicates ((k, v) ∷ m) h = (In-keys k m h.0, Distinct-NoDuplicates m h.1)

lookup_if :
    (ar : Arithmetic) (b : Bool) (k d : ℕ) (c : F64) (m : List (ℕ × F64))
    → Maps.lookup d (if b then Maps.insert k (ar.add (get_or (Maps.lookup k m) 0) c) m else m)
      ≡ (if b && (k == d) then some (ar.add (get_or (Maps.lookup d m) 0) c) else Maps.lookup d m)
lookup_if ar false k d c m = refl
lookup_if ar true k d c m = elim (Bool-cases (k == d)) [
  | inl same ↦
      Maps.lookup-insert k d (ar.add (get_or (Maps.lookup k m) 0) c) m
      ∙ rw same (ap (λ j. some (ar.add (get_or (Maps.lookup j m) 0) c)) ((==_iff k d).0 same))
  | inr other ↦ Maps.lookup-insert k d (ar.add (get_or (Maps.lookup k m) 0) c) m ∙ rw other refl
]

module _ (ar : Arithmetic) (cutoff : ℕ) where
  -- What counts for a day.
  abbrev counts : ℕ → CostEvent → Bool
  counts d e = leb cutoff e.timestamp_ms && (day_of e == d)

  abbrev day_acc : ℕ → List CostEvent → Option F64 → Option F64
  day_acc d [] o = o
  day_acc d (e ∷ es) o =
      day_acc d es (if counts d e then some (ar.add (get_or o 0) e.cost_usd) else o)

  group_by_day-Distinct :
      (es : List CostEvent) (m : List (ℕ × F64))
      → Maps.Distinct m
      → Maps.Distinct (group_by_day ar cutoff es m)
  unfolding group_by_day
  group_by_day-Distinct [] m h = h
  group_by_day-Distinct (e ∷ es) m h = group_by_day-Distinct es _ (
      if-both Maps.Distinct (leb cutoff e.timestamp_ms)
        (Maps.Distinct-insert (day_of e) (ar.add (get_or (Maps.lookup (day_of e) m) 0) e.cost_usd) m
          h)
        h)

  -- One event changes the sum of its day.
  lookup-step :
      (d : ℕ) (e : CostEvent) (m : List (ℕ × F64))
      → Maps.lookup d (
          if leb cutoff e.timestamp_ms
          then Maps.insert (day_of e) (ar.add (get_or (Maps.lookup (day_of e) m) 0) e.cost_usd) m
          else m)
        ≡ (if counts d e
            then some (ar.add (get_or (Maps.lookup d m) 0) e.cost_usd)
            else Maps.lookup d m)
  lookup-step d e m = lookup_if ar (leb cutoff e.timestamp_ms) (day_of e) d e.cost_usd m

  lookup-group_by_day :
      (d : ℕ) (es : List CostEvent) (m : List (ℕ × F64))
      → Maps.lookup d (group_by_day ar cutoff es m) ≡ day_acc d es (Maps.lookup d m)
  unfolding group_by_day
  lookup-group_by_day d [] m = refl
  lookup-group_by_day d (e ∷ es) m =
      lookup-group_by_day d es _ ∙ ap (day_acc d es) (lookup-step d e m)

  day_acc-some :
      (d : ℕ) (es : List CostEvent) (a : F64)
      → day_acc d es (some a) ≡ some (sum_from ar a (filter (counts d) es))
  day_acc-some d [] a = refl
  day_acc-some d (e ∷ es) a = elim (Bool-cases (counts d e)) [
    | inl counted ↦ rw counted (day_acc-some d es (ar.add a e.cost_usd))
    | inr other ↦ rw other (day_acc-some d es a)
  ]

  -- Either no event counts for the day, or the sum is that of those that do.
  day_acc-none :
      (d : ℕ) (es : List CostEvent)
      → ((day_acc d es none ≡ none) × All (λ e. counts d e ≡ false) es)
        ⊎ ((day_acc d es none ≡ some (sum_from ar 0 (filter (counts d) es)))
            × ((e : CostEvent) × (In e es × (counts d e ≡ true))))
  day_acc-none d [] = inl (refl, tt)
  day_acc-none d (e ∷ es) = elim (Bool-cases (counts d e)) [
    | inl counted ↦
        inr (rw counted (day_acc-some d es (ar.add 0 e.cost_usd)), (e, (inl refl, counted)))
    | inr other ↦ elim (day_acc-none d es) [
      | inl (absent, rest) ↦ inl (rw other absent, (other, rest))
      | inr (sum, (f, (member, counted))) ↦ inr (rw other sum, (f, (inr member, counted)))
    ]
  ]

module _ (ar : Arithmetic) (now days : ℕ) where
  abbrev grouped : List CostEvent → List (ℕ × F64)
  grouped log = group_by_day ar (now - days * day_ms) log []

  lookup-grouped :
      (log : List CostEvent) (d : ℕ)
      → Maps.lookup d (grouped log) ≡ day_acc ar (now - days * day_ms) d log none
  unfolding Maps.lookup
  lookup-grouped log d = lookup-group_by_day ar (now - days * day_ms) d log []

  -- A day is a key of the map exactly if an event counts for it; its value is the day's cost.
  grouped-value :
      (log : List CostEvent) (d : ℕ)
      → In d (Maps.keys (grouped log))
      → (get_or (Maps.lookup d (grouped log)) 0 ≡ cost_of_day ar now days log d)
        × ((e : CostEvent) × (In e log × ((is_recent now days e ≡ true) × (day_of e ≡ d))))
  grouped-value log d member = elim (day_acc-none ar (now - days * day_ms) d log) [
    | inl (absent, nothing) ↦
        absurd (In-keys d (grouped log) (lookup-grouped log d ∙ absent) member)
    | inr (sum, (e, (inside, counted))) ↦ (
      ap (λ o. get_or o 0) (lookup-grouped log d ∙ sum),
      (
        e,
        (
          inside,
          (
            and-left _ (day_of e == d) counted,
            (==_iff (day_of e) d).0 (and-right (is_recent now days e) _ counted),
          ),
        ),
      ),
    )
  ]

  grouped-key :
      (log : List CostEvent) (d : ℕ) (e : CostEvent)
      → In e log
      → is_recent now days e ≡ true
      → day_of e ≡ d
      → In d (Maps.keys (grouped log))
  grouped-key log d e member recent same = elim (day_acc-none ar (now - days * day_ms) d log) [
    | inl (absent, nothing) ↦ absurd (
        ground
          (arith, All-In (λ f. counts ar (now - days * day_ms) d f ≡ false) e log nothing member))
    | inr (sum, rest) ↦ In-keys_of_found d _ (grouped log) (lookup-grouped log d ∙ sum)
  ]

  map-same :
      {A B : Type 0} (f g : A → B) (xs : List A)
      → ((x : A) → In x xs → f x ≡ g x)
      → map f xs ≡ map g xs
  map-same f g [] h = refl
  map-same f g (x ∷ xs) h = rw (h x (inl refl), map-same f g xs (λ y m. h y (inr m))) refl

  sum_by_day-IsDailyCosts :
      (log : List CostEvent) → IsDailyCosts ar now days log (sum_by_day ar now days log)
  unfolding sum_by_day
  sum_by_day-IsDailyCosts [] =
      ([], (tt, ((λ d. (λ h. absurd h, λ (e, (h, rest)). absurd h)), refl)))
  sum_by_day-IsDailyCosts (e ∷ es) =
      let log = e ∷ es in
      let ds = sort_by leb (Maps.keys (grouped log)) in
      (
        ds,
        (
          sort_by-IsAscending (Maps.keys (grouped log)) (
              Distinct-NoDuplicates (grouped log)
                (group_by_day-Distinct ar (now - days * day_ms) log [] tt)),
          (
            (λ d. (
              λ h. (grouped-value log d (In-of_In-sort_by leb d (Maps.keys (grouped log)) h)).1,
              λ (f, (member, (recent, same))).
                  In-sort_by leb d (Maps.keys (grouped log))
                    (grouped-key log d f member recent same),
            )),
            map-same (λ d. get_or (Maps.lookup d (grouped log)) 0) (cost_of_day ar now days log) ds
                (λ d h.
                  (grouped-value log d (In-of_In-sort_by leb d (Maps.keys (grouped log)) h)).0),
          ),
        ),
      )

-- The store in memory implements a log of cost events: recording one never fails and puts it at
-- the end, all events are listed in order, and the costs by day are those of the days on which a
-- recent event falls, each once and the earliest first, each the sum of its recent events.
pub memory_store-Implements :
    (ar : Arithmetic) → Implements ar (memory_store ar) (λ s. s.cost_events)
unfolding push_cost
memory_store-Implements ar = record {
  records = λ e s. (push_cost e s, (refl, refl));
  lists = λ s. refl;
  sums = λ now days s. (
    sum_by_day ar now days s.cost_events,
    (refl, sum_by_day-IsDailyCosts ar now days s.cost_events),
  );
}
