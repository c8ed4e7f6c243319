-- ===== src/Tests/Spending.antt =====
-- The bandit, the budget and the health checks at concrete inputs.
use neu_rust.Prelude.Keys.{nat_eq, text_eq}
use neu_rust.CostRouting.Bandit.{new, SlidingWindowUcb}
use neu_rust.Observability.Budget.{BudgetManagerConfig}
use neu_rust.Prelude.{◌+◌, ◌-◌, ◌∷◌, ◌&&◌, [], true, none, ℕ, Bool, leb, List}
use neu_rust.CostRouting.Complexity.{ComplexityGateConfig}
use neu_rust.CostRouting.Bandit.Bounds.{IsSmall, updates, updates-IsSmall}
use neu_rust.Prelude.Text.{utf8}
use neu_rust.Prelude.Float.{Arithmetic}
use neu_rust.Observability.Period.{last_day_of_month}
use neu_rust.Contracts.{ModelSpec}

updates-IsSmall_example :
    IsSmall (updates (new 1) ((utf8 "a", 1) ∷ (utf8 "b", 2) ∷ (utf8 "a", 3) ∷ []))
updates-IsSmall_example = updates-IsSmall 1 ((utf8 "a", 1) ∷ (utf8 "b", 2) ∷ (utf8 "a", 3) ∷ [])

abbrev seen_two : SlidingWindowUcb
seen_two = record { window_size = 2; arms = (utf8 "a", 1 ∷ 2 ∷ []) ∷ []; total_observations = 2 }

-- An arithmetic that takes bits for numbers.
abbrev plain : Arithmetic
plain = record {
  add = λ x y. x + y;
  sub = λ x y. x - y;
  mul = λ x y. x;
  div = λ x y. x;
  sqrt = λ x. x;
  ln = λ x. x;
  of_nat = λ n. n;
  to_nat = λ x. x;
}

abbrev pub budget : BudgetManagerConfig
budget = record {
  monthly_budget_usd = 0x4059000000000000;
  warn_threshold = 0x3fe999999999999a;
  hard_limit = true;
  reset_day = 1;
}

abbrev calendar : ℕ → ℕ → ℕ → Bool
calendar y m d = leb 1 d && leb d (last_day_of_month y m)

abbrev candidates : List ModelSpec
candidates =
    record { model_name = utf8 "gpt-4o"; provider_id = none }
    ∷ record { model_name = utf8 "gpt-4o-mini"; provider_id = none }
    ∷ []

abbrev gate : ComplexityGateConfig
gate = record {
  simple_max_tokens = 200;
  complex_min_tokens = 2000;
  system_prompt_weight = 0x3ff8000000000000;
}
