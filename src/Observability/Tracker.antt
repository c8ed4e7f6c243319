-- ===== src/Observability/Tracker.antt =====
-- The tracker of costs, observability/cost_tracker.rs, in front of any event store. Its prices
-- stand in a table of its own; reading a JSON value as a Boolean is a parameter.
pub mod Laws
use neu_rust.Prelude.{◌||◌, if◌then◌else◌, false, none, some, Option, Bool, ℕ, get_or}
use neu_rust.Prelude.Keys.{text_eq, nat_eq}
use neu_rust.Prelude.Maps
use neu_rust.Prelude.Text.{Str, contains, utf8}
use neu_rust.Prelude.Float.{Arithmetic, F64}
use neu_rust.Contracts.{Value, UnifiedRequest, UnifiedResponse, CostEvent}
use neu_rust.Stores.EventStore.{EventStore}

-- The prices of a thousand tokens of the prompt and of the completion.
abbrev pub token_prices : Str → F64 × F64
token_prices model =
    if contains model (utf8 "gpt-4o-mini")
    then (0x3f23a92a30553261, 0x3f43a92a30553261)
    else if contains model (utf8 "gpt-4o")
    then (0x3f747ae147ae147b, 0x3f8eb851eb851eb8)
    else if contains model (utf8 "gpt-4")
    then (0x3f9eb851eb851eb8, 0x3faeb851eb851eb8)
    else if contains model (utf8 "gpt-3.5")
    then (0x3f40624dd2f1a9fc, 0x3f589374bc6a7efa)
    else if contains model (utf8 "claude-3-opus")
    then (0x3f8eb851eb851eb8, 0x3fb3333333333333)
    else if contains model (utf8 "claude-sonnet-4") || contains model (utf8 "claude-3.5-sonnet")
    then (0x3f689374bc6a7efa, 0x3f8eb851eb851eb8)
    else if contains model (utf8 "claude-haiku")
    then (0x3f30624dd2f1a9fc, 0x3f547ae147ae147b)
    else (0x3f50624dd2f1a9fc, 0x3f60624dd2f1a9fc)

module _ (ar : Arithmetic) (as_bool : Value → Option Bool) where
  abbrev pub token_cost : Str → ℕ → ℕ → F64
  token_cost model prompt_tokens completion_tokens =
      ar.add (ar.mul (ar.div (ar.of_nat prompt_tokens) 0x408f400000000000) (token_prices model).0)
        (ar.mul (ar.div (ar.of_nat completion_tokens) 0x408f400000000000) (token_prices model).1)

  -- The parameter `cached` of a request, if it is a Boolean.
  abbrev pub cached_of : UnifiedRequest → Bool
  cached_of r = elim (Maps.lookup (utf8 "cached") r.extra_params) [
    | none ↦ false
    | some v ↦ get_or (as_bool v) false
  ]

  unfoldable pub tracked_event : ℕ → UnifiedRequest → UnifiedResponse → CostEvent
  tracked_event now r a = record {
    timestamp_ms = now;
    provider_id = a.provider_id;
    model = a.model;
    prompt_tokens = a.usage.prompt_tokens;
    completion_tokens = a.usage.completion_tokens;
    cost_usd = token_cost a.model a.usage.prompt_tokens a.usage.completion_tokens;
    latency_ms = a.latency_ms;
    cached = cached_of r;
  }

  -- `record`, which is what the layer does with a response.
  unfoldable pub track :
      {S : Type 0} → EventStore S → ℕ → UnifiedRequest → UnifiedResponse → S → Option S
  unfolding tracked_event
  track store now r a s = store.record_cost (tracked_event now r a) s
