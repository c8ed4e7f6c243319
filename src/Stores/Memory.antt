-- ===== src/Stores/Memory.antt =====
-- The event store in memory, store/mod.rs. Locks are taken one call after the other.
pub mod Laws
use neu_rust.Prelude.{
  map, ◌-◌, ◌*◌, ◌∷◌, ◌++◌, if◌then◌else◌, [], true, some, List, ℕ, length, leb, is_empty, get_or,
}
use neu_rust.Prelude.Keys.{nat_eq, text_eq}
use neu_rust.Prelude.Maps
use neu_rust.Stores.EventStore.{MetricEntry, EventStore, day_ms, day_of}
use neu_rust.Contracts.{CostEvent}
use neu_rust.Prelude.Float.{Arithmetic, F64}
use neu_rust.Prelude.Sort.{sort_by}

pub record InMemoryEventStore : Type 0 where
  pub cost_events : List CostEvent
  pub metrics : List MetricEntry

abbrev pub new_store : InMemoryEventStore
new_store = record { cost_events = []; metrics = [] }

abbrev pub cost_event_count : InMemoryEventStore → ℕ
cost_event_count s = length s.cost_events

abbrev pub metric_count : InMemoryEventStore → ℕ
metric_count s = length s.metrics

abbrev pub record_metric : MetricEntry → InMemoryEventStore → InMemoryEventStore
record_metric entry s = record s { metrics = s.metrics ++ entry ∷ [] }

abbrev pub clear_store : InMemoryEventStore → InMemoryEventStore
clear_store s = record { cost_events = []; metrics = [] }

unfoldable pub push_cost : CostEvent → InMemoryEventStore → InMemoryEventStore
push_cost e s = record s { cost_events = s.cost_events ++ e ∷ [] }

module _ (ar : Arithmetic) where
  -- `*daily.entry(day_key).or_default() += event.cost_usd`, for the events from the cutoff on.
  unfoldable pub group_by_day : (cutoff : ℕ) → List CostEvent → List (ℕ × F64) → List (ℕ × F64)
  group_by_day cutoff [] daily = daily
  group_by_day cutoff (e ∷ es) daily = group_by_day cutoff es (
      if leb cutoff e.timestamp_ms
      then Maps.insert (day_of e) (ar.add (get_or (Maps.lookup (day_of e) daily) 0) e.cost_usd)
          daily
      else daily)

  -- The days are keys of the map, so indexing it does not panic.
  unfoldable pub sum_by_day : (now days : ℕ) → List CostEvent → List F64
  unfolding group_by_day
  sum_by_day now days events =
      let daily = group_by_day (now - days * day_ms) events [] in
      if is_empty events
      then []
      else map (λ d. get_or (Maps.lookup d daily) 0) (sort_by leb (Maps.keys daily))

  -- The store as an `EventStore`.
  abbrev pub memory_store : EventStore InMemoryEventStore
  memory_store = record {
    record_cost = λ e s. some (push_cost e s);
    daily_costs = λ now days s. some (sum_by_day now days s.cost_events);
    all_cost_events = λ s. some s.cost_events;
    all_metrics = λ s. some s.metrics;
    ping = λ s. true;
  }
