-- ===== src/Tests/Stores.antt =====
-- The stores, the tracker and the auctioneer at concrete inputs.
use neu_rust.CostRouting.Bandit
use neu_rust.Prelude.Maps
use neu_rust.Prelude.Keys.{nat_eq, text_eq}
use neu_rust.Prelude.{
  true, false, refl, arith, ◌≡◌, ◌+◌, ◌-◌, ◌*◌, ◌∷◌, ◌++◌, [], none, some, List, ℕ, Option, Bool,
  In,
}
use neu_rust.Tests.Data.{question, hello}
use neu_rust.Prelude.Float.{Arithmetic, F64, f64_le}
use neu_rust.Stores.Memory.{InMemoryEventStore, sum_by_day, group_by_day, memory_store, new_store}
use neu_rust.Stores.EventStore.{Implements}
use neu_rust.Contracts.{Value, CostEvent}
use neu_rust.Prelude.Text.{Str, utf8}
use neu_rust.CostRouting.Auctioneer.{
  CostAuctioneer, new_auctioneer, RawScore, safe_normalize, get_context_weights, select_best,
  to_model_spec, combined,
}
use neu_rust.Stores.Memory.Laws.{memory_store-Implements}
use neu_rust.Observability.Tracker.{track}
use neu_rust.Observability.Budget.{estimate_response_cost}
use neu_rust.Observability.Tracker.Laws.{track-Implements}
use neu_rust.Prelude.Sort.{sort_by, insert_by}
use neu_rust.CostRouting.Auctioneer.Laws.{select_best-least}

-- Arithmetic on whole numbers in place of doubles.
abbrev pub counting : Arithmetic
counting = record {
  add = λ x y. x + y;
  sub = λ x y. x - y;
  mul = λ x y. x * y;
  div = λ x y. 0;
  sqrt = λ x. x;
  ln = λ x. x;
  of_nat = λ n. n;
  to_nat = λ x. x;
}

abbrev event : ℕ → F64 → CostEvent
event at cost = record {
  timestamp_ms = at;
  provider_id = utf8 "a";
  model = utf8 "m";
  prompt_tokens = 3;
  completion_tokens = 2;
  cost_usd = cost;
  latency_ms = 7;
  cached = false;
}

-- Two days with events, and one event that is too old.
abbrev ledger : List CostEvent
ledger = event 172800000 5 ∷ event 86400011 2 ∷ event 172800009 1 ∷ event 5 100 ∷ []

sum_by_day-ledger : sum_by_day counting 172800010 1 ledger ≡ 2 ∷ 6 ∷ []
unfolding sum_by_day group_by_day Maps.lookup Maps.insert sort_by insert_by
sum_by_day-ledger = refl

memory_store-Implements_example : Implements counting (memory_store counting) (λ s. s.cost_events)
memory_store-Implements_example = memory_store-Implements counting

abbrev pub no_bool : Value → Option Bool
no_bool v = none

track-Implements_example :
    (t : InMemoryEventStore) × ((e : CostEvent) × ((track counting no_bool
            (memory_store counting)
            9
            question
            hello
            new_store
          ≡ some t)
        × ((some t.cost_events ≡ some ([] ++ e ∷ []))
            × ((e.timestamp_ms ≡ 9)
                × ((e.provider_id ≡ hello.provider_id)
                    × ((e.model ≡ hello.model)
                        × ((e.cost_usd ≡ estimate_response_cost counting hello.model 3 2)
                            × ((e.prompt_tokens ≡ 3) × (e.completion_tokens ≡ 2)))))))))
track-Implements_example =
    track-Implements counting no_bool (memory_store counting) (λ s. s.cost_events)
      (memory_store-Implements counting) 9 question hello new_store

abbrev candidate : Str → F64 → RawScore
candidate id cost = record { model_id = id; cost = cost; latency_ms = 0; quality = 0 }

-- It has seen all the requests of its warm-up, of which there are none, and does not explore.
abbrev auctioneer : CostAuctioneer
auctioneer =
    new_auctioneer
      (record {
        warmup_requests = some 0;
        epsilon = some 0;
        sliding_window_size = none;
        context_weights = none;
      })
      (candidate (utf8 "cheap") 1 ∷ candidate (utf8 "dear") 2 ∷ [])

select_best-least_example :
    (c : RawScore) × (In c auctioneer.candidates
      × ((select_best counting auctioneer 0 0 question ≡ some (to_model_spec c.model_id))
          × ((d : RawScore)
              → In d auctioneer.candidates
              → f64_le
                  (combined counting auctioneer question.context c)
                  (combined counting auctioneer question.context d)
                ≡ true)))
unfolding Bandit.new safe_normalize get_context_weights Bandit.total_requests
select_best-least_example =
    select_best-least counting auctioneer 0 0 question (omega arith) refl refl (refl, (refl, tt))
