-- ===== src/Gateway/Concurrent.antt =====
-- The chat completions in flight, routes/inference.rs: the handlers of many requests and the tasks
-- they spawn, interleaved in any order. A step is one call of the cache, of a provider, of a counter,
-- of the event bus or of the event store, together with the code up to the next such call; the items
-- of a stream that has started are sent by the library and are modelled in Stream.
pub mod Accounts
pub mod Progress
pub mod Tally
use neu_rust.Prelude.{
  ◌≡◌, ◌+◌, ◌∷◌, ◌++◌, [], none, some, false, List, Option, ℕ, get_or, if◌then◌else◌,
}
use neu_rust.Prelude.Keys.{nat_eq, text_eq}
use neu_rust.Prelude.Text.{Str, utf8}
use neu_rust.Contracts.{CostEvent, UnifiedRequest, UnifiedResponse}
use neu_rust.Cache.Tiered.{Semantic}
use neu_rust.Cache.Key.{Hasher}
use neu_rust.Gateway.Inference.{
  Gateway, Clock, ChatCompletionRequest, validate, to_unified_request, lookup_in, store_in, wrap64,
  cost_event, completed_event, cache_hit, recorded_cost, lost_cost,
}
use neu_rust.Gateway.State.{find_provider}
use neu_rust.Routing.Provider.{Provider, ProviderConfig, Result, ok, err}

-- Where a handler stands, by the call that it makes next; the last one is the task that is spawned.
pub data Task (S : Type 0) : Type 0 where
  looking : Provider S → ChatCompletionRequest → Task S
  announcing_hit : Str → Task S
  asking : Provider S → UnifiedRequest → Task S
  opening : Provider S → UnifiedRequest → Task S
  failing : Task S
  storing : UnifiedRequest → UnifiedResponse → Task S
  spawning : UnifiedResponse → Task S
  announcing : UnifiedResponse → Task S
  recording : CostEvent → Task S

-- The gateway with the tasks that are running.
pub record System (S C : Type 0) : Type 0 where
  pub gateway : Gateway S C
  pub tasks : List (Task S)

abbrev pub running : {S C : Type 0} → Gateway S C → List (Task S) → System S C
running g ts = record { gateway = g; tasks = ts }

module _ {S : Type 0} where
  -- The handler behind the lookup.
  abbrev pub after_lookup : Provider S → ChatCompletionRequest → Option UnifiedResponse → Task S
  after_lookup p q none = asking p (to_unified_request q)
  after_lookup p q (some a) = announcing_hit q.model

  -- The handler behind the answer of a provider.
  abbrev pub after_asking : UnifiedRequest → Result UnifiedResponse → Task S
  after_asking r (err e) = failing
  after_asking r (ok a) = storing r a

  -- The handler behind the start of a stream.
  abbrev pub after_opening : {A : Type 0} → Result A → List (Task S)
  after_opening (err e) = failing ∷ []
  after_opening (ok chunks) = []

module _ {S C : Type 0} (sem : Semantic C) (h : Hasher) (configs : List ProviderConfig)
    (providers : List (Provider S)) where
  -- The first task of a request: none if it is refused, or else the call behind the checks.
  unfoldable pub begin : ChatCompletionRequest → List (Task S)
  begin q = elim (validate q) [
    | some e ↦ []
    | none ↦ elim (find_provider configs providers q.model) [
      | none ↦ []
      | some p ↦
          (if get_or q.stream false then opening p (to_unified_request q) else looking p q) ∷ []
    ]
  ]

  -- The arrival of a request, up to its first call.
  abbrev pub arrive : ChatCompletionRequest → System S C → System S C
  arrive q s =
      running (record s.gateway { request_count = wrap64 (s.gateway.request_count + 1) })
        (begin q ++ s.tasks)

  -- The next call of a task, and the tasks that go on from it.
  unfoldable pub advance : Clock → Task S → Gateway S C → Gateway S C × List (Task S)
  advance c (looking p q) g =
      let (cache', a) = lookup_in sem h c.now g.cache (to_unified_request q) in
      (record g { cache = cache' }, after_lookup p q a ∷ [])
  advance c (announcing_hit model) g =
      (record g { events = g.events ++ cache_hit c.now_ms (utf8 "tiered") model ∷ [] }, [])
  advance c (asking p r) g =
      let (a, world) = p.complete r g.world in (record g { world = world }, after_asking r a ∷ [])
  advance c (opening p r) g =
      let (a, world) = p.complete_stream r g.world in (record g { world = world }, after_opening a)
  advance c failing g = (record g { error_count = wrap64 (g.error_count + 1) }, [])
  advance c (storing r a) g =
      (record g { cache = store_in sem h c.now g.cache r a }, spawning a ∷ [])
  advance c (spawning a) g = (g, recording (cost_event c.now_ms a) ∷ announcing a ∷ [])
  advance c (announcing a) g =
      (record g { events = g.events ++ completed_event c.now_ms a ∷ [] }, [])
  advance c (recording e) g = (
    record g {
      costs = g.costs ++ recorded_cost c.recorded e;
      lost = g.lost ++ lost_cost c.recorded e;
    },
    [],
  )

  -- Any task may be the next to run.
  pub data Move (s : System S C) : System S C → Type 0 where
    pick :
        (c : Clock) (t : Task S) (before after : List (Task S))
        → s.tasks ≡ before ++ t ∷ after
        → Move s
            (running (advance c t s.gateway).0 (before ++ ((advance c t s.gateway).1 ++ after)))

  -- What `n` arrivals and any moves of the tasks between them lead to.
  pub data Reach (s : System S C) : ℕ → System S C → Type 0 where
    start : Reach s 0 s
    arrives :
        {n : ℕ} {t : System S C} (q : ChatCompletionRequest)
        → Reach s n t
        → Reach s (n + 1) (arrive q t)
    moves : {n : ℕ} {t u : System S C} → Reach s n t → Move t u → Reach s n u
