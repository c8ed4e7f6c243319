-- ===== src/Stores/EventStore.antt =====
-- The interface of the event stores in crates/neurust-core/src/contracts.rs, and what a client may
-- expect of one: the view of a store is the sequence of the cost events recorded, in order.
use neu_rust.Prelude.{
  ◌≡◌, ◌<◌, ◌≤◌, ◌-◌, ◌*◌, ◌/◌, ◌∷◌, ◌++◌, ◌&&◌, ◌↔◌, ◌==◌, [], true, some, List, ℕ, All, Bool,
  Option, In, filter, leb, map,
}
use neu_rust.Contracts.{CostEvent}
use neu_rust.Prelude.Float.{Arithmetic, F64}
use neu_rust.Prelude.Text.{Str}

pub record MetricEntry : Type 0 where
  pub timestamp_ms : ℕ
  pub metric_name : Str
  pub value : F64
  pub labels : List (Str × Str)

-- A store with a state `S`. Reading the costs of the last days takes the time of the call in
-- milliseconds; `none` is an error.
pub record EventStore (S : Type 0) : Type 0 where
  pub record_cost : CostEvent → S → Option S
  pub daily_costs : (now days : ℕ) → S → Option (List F64)
  pub all_cost_events : S → Option (List CostEvent)
  pub all_metrics : S → Option (List MetricEntry)
  pub ping : S → Bool

abbrev pub day_ms : ℕ
day_ms = 86400000

abbrev pub day_of : CostEvent → ℕ
day_of e = e.timestamp_ms / day_ms

-- The events of the last days, from `days` times 24 hours before the call on.
abbrev pub is_recent : (now days : ℕ) → CostEvent → Bool
is_recent now days e = leb (now - days * day_ms) e.timestamp_ms

-- The sum of costs, in the order of the events.
abbrev pub sum_from : Arithmetic → F64 → List CostEvent → F64
sum_from ar acc [] = acc
sum_from ar acc (e ∷ es) = sum_from ar (ar.add acc e.cost_usd) es

-- The cost of a day: the sum over its events that are recent.
abbrev pub cost_of_day : Arithmetic → (now days : ℕ) → List CostEvent → ℕ → F64
cost_of_day ar now days log d =
    sum_from ar 0 (filter (λ e. is_recent now days e && (day_of e == d)) log)

-- Each item is below the next.
abbrev pub IsAscending : List ℕ → Type 0
IsAscending [] = Unit
IsAscending (d ∷ ds) = All (λ e. d < e) ds × IsAscending ds

-- The costs by day that a log calls for: those of the days with recent events, in order.
abbrev pub IsDailyCosts : Arithmetic → (now days : ℕ) → List CostEvent → List F64 → Type 0
IsDailyCosts ar now days log costs =
    (ds : List ℕ) × (IsAscending ds
      × (((d : ℕ)
            → In d ds
              ↔ ((e : CostEvent) × (In e log × ((is_recent now days e ≡ true) × (day_of e ≡ d)))))
          × (costs ≡ map (cost_of_day ar now days log) ds)))

-- A store implements a log of cost events, seen through `view`.
pub record Implements {S : Type 0} (ar : Arithmetic) (store : EventStore S)
    (view : S → List CostEvent) : Type 0 where
  pub records :
      (e : CostEvent) (s : S)
      → (t : S) × ((store.record_cost e s ≡ some t) × (view t ≡ view s ++ e ∷ []))
  pub lists : (s : S) → store.all_cost_events s ≡ some (view s)
  pub sums :
      (now days : ℕ) (s : S)
      → (costs : List F64) × ((store.daily_costs now days s ≡ some costs)
          × IsDailyCosts ar now days (view s) costs)

-- No event is earlier than one before it.
abbrev pub IsChronological : List CostEvent → Type 0
IsChronological [] = Unit
IsChronological (e ∷ es) = All (λ f. e.timestamp_ms ≤ f.timestamp_ms) es × IsChronological es
