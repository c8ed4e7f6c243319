-- ===== src/Observability/Budget.antt =====
-- The budget manager, observability/budget_manager.rs. Spending is counted in millionths of a
-- dollar; the arithmetic of doubles is an interface.
pub mod Laws
use neu_rust.Prelude.{
  ◌+◌, ◌%◌, ◌∷◌, ◌&&◌, ◌||◌, if◌then◌else◌, [], none, some, Bool, ℕ, List, Option, not, leb, false,
}
use neu_rust.Prelude.Text.{contains, Str, utf8}
use neu_rust.Prelude.Float.{Arithmetic, F64, f64_le, f64_max}
use neu_rust.Contracts.{UnifiedRequest, UnifiedResponse, CostEvent}

-- The literals 1.0, 1000.0 and 1_000_000.0.
abbrev pub one : F64
one = 0x3ff0000000000000

abbrev pub thousand : F64
thousand = 0x408f400000000000

abbrev pub million : F64
million = 0x412e848000000000

pub data BudgetStatus : Type 0 where
  within : F64 → BudgetStatus
  warning : F64 → F64 → BudgetStatus
  exceeded : F64 → F64 → BudgetStatus

pub record BudgetManagerConfig : Type 0 where
  pub monthly_budget_usd : F64
  pub warn_threshold : F64
  pub hard_limit : Bool
  pub reset_day : ℕ

-- `Default`: 100.0, 0.8, no hard limit, the first of the month.
abbrev pub default_budget : BudgetManagerConfig
default_budget = record {
  monthly_budget_usd = 0x4059000000000000;
  warn_threshold = 0x3fe999999999999a;
  hard_limit = false;
  reset_day = 1;
}

-- The prices of a thousand tokens of the prompt and of the completion.
abbrev pub prices : Str → F64 × F64
prices model =
    if contains model (utf8 "gpt-4o-mini")
    then (0x3f23a92a30553261, 0x3f43a92a30553261)
    else if contains model (utf8 "gpt-4o")
    then (0x3f747ae147ae147b, 0x3f8eb851eb851eb8)
    else if contains model (utf8 "gpt-4")
    then (0x3f9eb851eb851eb8, 0x3faeb851eb851eb8)
    else if contains model (utf8 "gpt-3.5")
    then (0x3f40624dd2f1a9fc, 0x3f589374bc6a7efa)
    else if contains model (utf8 "claude-3-opus")
    then (0x3f8eb851eb851eb8, 0x3fb3333333333333)
    else if contains model (utf8 "claude-sonnet-4") || contains model (utf8 "claude-3.5-sonnet")
    then (0x3f689374bc6a7efa, 0x3f8eb851eb851eb8)
    else if contains model (utf8 "claude-haiku")
    then (0x3f30624dd2f1a9fc, 0x3f547ae147ae147b)
    else (0x3f50624dd2f1a9fc, 0x3f60624dd2f1a9fc)

module _ (ar : Arithmetic) where
  abbrev pub estimate_response_cost : Str → ℕ → ℕ → F64
  estimate_response_cost model prompt_tokens completion_tokens =
      ar.add (ar.mul (ar.div (ar.of_nat prompt_tokens) thousand) (prices model).0)
        (ar.mul (ar.div (ar.of_nat completion_tokens) thousand) (prices model).1)

  -- The spending after a cost is recorded; the counter wraps.
  unfoldable pub record_cost : ℕ → F64 → ℕ
  record_cost spend_micro cost_usd =
      (spend_micro + ar.to_nat (ar.mul cost_usd million)) % 0x10000000000000000

  module _ (config : BudgetManagerConfig) where
    abbrev pub spend : ℕ → F64
    spend spend_micro = ar.div (ar.of_nat spend_micro) million

    abbrev pub usage_ratio : ℕ → F64
    usage_ratio spend_micro = ar.div (spend spend_micro) config.monthly_budget_usd

    abbrev pub remaining_budget : ℕ → F64
    remaining_budget spend_micro = f64_max (ar.sub config.monthly_budget_usd (spend spend_micro)) 0

    unfoldable pub check_budget : ℕ → BudgetStatus
    check_budget spend_micro =
        let ratio = usage_ratio spend_micro in
        if f64_le one ratio
        then exceeded ratio (ar.sub (spend spend_micro) config.monthly_budget_usd)
        else if f64_le config.warn_threshold ratio
        then warning ratio (ar.sub config.monthly_budget_usd (spend spend_micro))
        else within ratio

    unfoldable pub should_block : ℕ → Bool
    should_block spend_micro = config.hard_limit && f64_le one (usage_ratio spend_micro)

    -- `on_request`: the request after it, and whether it is let through.
    unfoldable pub on_request : ℕ → UnifiedRequest → UnifiedRequest × Bool
    unfolding should_block
    on_request spend_micro r = (
      record r {
        context = record (r.context) {
          budget_remaining_ratio = ar.sub one (usage_ratio spend_micro);
        };
      },
      not (should_block spend_micro),
    )

    unfoldable pub on_response : ℕ → UnifiedResponse → ℕ
    unfolding record_cost
    on_response spend_micro a =
        record_cost spend_micro
          (estimate_response_cost a.model a.usage.prompt_tokens a.usage.completion_tokens)

    -- The sum of the costs since the start of the period, in the order of the events.
    abbrev pub total_since : ℕ → List CostEvent → F64 → F64
    total_since start [] acc = acc
    total_since start (e ∷ es) acc =
        total_since start es (if leb start e.timestamp_ms then ar.add acc e.cost_usd else acc)

    -- `refresh_from_store`, by the answer of the store; an error leaves the spending as it is.
    unfoldable pub refresh_from_store : ℕ → Option (List CostEvent) → ℕ → ℕ
    refresh_from_store start none spend_micro = spend_micro
    refresh_from_store start (some es) spend_micro =
        ar.to_nat (ar.mul (total_since start es 0) million)
