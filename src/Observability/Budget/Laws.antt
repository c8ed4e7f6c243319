-- ===== src/Observability/Budget/Laws.antt =====
-- When the budget blocks a request.
use neu_rust.Prelude.{◌≡◌, ◌&&◌, refl, arith, true, false, Bool, ℕ, not}
use neu_rust.Observability.Budget.{
  on_request, exceeded, BudgetStatus, check_budget, within, BudgetManagerConfig, warning,
}
use neu_rust.Prelude.Float.{Arithmetic}
use neu_rust.Contracts.{UnifiedRequest}

abbrev pub is_exceeded : BudgetStatus → Bool
is_exceeded (within r) = false
is_exceeded (warning r m) = false
is_exceeded (exceeded r m) = true

-- A request is stopped exactly if the limit is hard and the status is that the budget is exceeded;
-- so the check before a request and the status agree. Model and messages stay as they are.
pub on_request_lem :
    (ar : Arithmetic) (config : BudgetManagerConfig) (spend_micro : ℕ) (r : UnifiedRequest)
    → ((on_request ar config spend_micro r).1
        ≡ not (config.hard_limit && is_exceeded (check_budget ar config spend_micro)))
      × ((on_request ar config spend_micro r).0.model ≡ r.model)
      × ((on_request ar config spend_micro r).0.messages ≡ r.messages)
unfolding on_request check_budget
on_request_lem ar config spend_micro r = (ground arith, refl, refl)
