-- ===== src/Observability/Tracker/Laws.antt =====
-- The tracker in front of a store, and beside the budget manager.
use neu_rust.Prelude.{refl, ◌≡◌, ◌∷◌, ◌++◌, ◌∙◌, [], some, Option, Bool, List, ℕ, ap}
use neu_rust.Observability.Tracker.{track, tracked_event}
use neu_rust.Prelude.Float.{Arithmetic}
use neu_rust.Contracts.{Value, CostEvent, UnifiedRequest, UnifiedResponse}
use neu_rust.Stores.EventStore.{EventStore, Implements}
use neu_rust.Observability.Budget.{estimate_response_cost}

-- The tracker in front of any store that implements a log: its layer does not fail, and the store
-- then lists one more event, at the end, with the provider, the model and the tokens of the
-- response and the cost that the budget manager takes for the same response.
pub track-Implements :
    {S : Type 0}
    → (ar : Arithmetic) (as_bool : Value → Option Bool)
    → (store : EventStore S) (view : S → List CostEvent) → Implements ar store view
    → (now : ℕ) (r : UnifiedRequest) (a : UnifiedResponse) (s : S)
    → (t : S) × ((e : CostEvent) × ((track ar as_bool store now r a s ≡ some t)
          × ((store.all_cost_events t ≡ some (view s ++ e ∷ []))
              × ((e.timestamp_ms ≡ now)
                  × ((e.provider_id ≡ a.provider_id)
                      × ((e.model ≡ a.model)
                          × ((e.cost_usd
                                ≡ estimate_response_cost ar a.model a.usage.prompt_tokens
                                    a.usage.completion_tokens)
                              × ((e.prompt_tokens ≡ a.usage.prompt_tokens)
                                  × (e.completion_tokens ≡ a.usage.completion_tokens)))))))))
unfolding track tracked_event
track-Implements ar as_bool store view laws now r a s =
    let e = tracked_event ar as_bool now r a in
    let (t, (recorded, viewed)) = laws.records e s in
    (
      t,
      (
        e,
        (recorded, (laws.lists t ∙ ap some viewed, (refl, (refl, (refl, (refl, (refl, refl))))))),
      ),
    )
