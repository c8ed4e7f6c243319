-- ===== src/Routing/Mock.antt =====
-- The provider that answers without a server, crates/neurust-core/src/mock.rs, with the store that
-- goes with it. The pauses before an answer are left out.
pub mod Laws
use neu_rust.Prelude.{
  ◌+◌, ◌-◌, ◌%◌, ◌/◌, ◌==◌, ◌∷◌, ◌++◌, [], none, some, List, Bool, ℕ, suc, length, map,
  if◌then◌else◌, true, zero,
}
use neu_rust.Prelude.Text.{Str, utf8}
use neu_rust.Prelude.Unicode.{Unicode, split_whitespace}
use neu_rust.Contracts.{
  UnifiedRequest, UnifiedResponse, StreamChunk, TokenUsage, last_user_message, healthy, CostEvent,
}
use neu_rust.Routing.Provider.{Provider, Result, ok}
use neu_rust.Stores.EventStore.{EventStore}
use neu_rust.Prelude.Float.{Arithmetic, F64}

pub record MockProvider : Type 0 where
  pub name : Str
  pub models : List Str
  pub latency_ms : ℕ

-- `MockProvider::openai`.
abbrev pub mock_openai : MockProvider
mock_openai = record {
  name = utf8 "mock-openai";
  models = utf8 "gpt-4o" ∷ utf8 "gpt-4o-mini" ∷ [];
  latency_ms = 50;
}

-- `MockProvider::anthropic`.
abbrev pub mock_anthropic : MockProvider
mock_anthropic = record {
  name = utf8 "mock-anthropic";
  models = utf8 "claude-sonnet-4-20250514" ∷ utf8 "claude-haiku-4-5-20251001" ∷ [];
  latency_ms = 80;
}

abbrev pub mock_complete : MockProvider → UnifiedRequest → UnifiedResponse
mock_complete m r = record {
  content = utf8 "Mock response to: " ++ last_user_message r;
  model = r.model.model_name;
  usage = record { prompt_tokens = 10; completion_tokens = 20; total_tokens = 30 };
  provider_id = m.name;
  latency_ms = m.latency_ms;
  upstream_id = some (utf8 "mock-id-001");
}

-- `words.len() as u32`.
abbrev pub as_u32 : ℕ → ℕ
as_u32 n = n % 0x100000000

-- The usage in the last chunk; the sum wraps as in a release build.
abbrev pub mock_usage : ℕ → TokenUsage
mock_usage count = record {
  prompt_tokens = 10;
  completion_tokens = as_u32 count;
  total_tokens = as_u32 (10 + as_u32 count);
}

abbrev pub mock_chunk : (count i : ℕ) → Str → StreamChunk
mock_chunk count i word =
    let is_last = i == count - 1 in
    record {
      delta = if i == 0 then word else utf8 " " ++ word;
      finished = is_last;
      usage = if is_last then some (mock_usage count) else none;
    }

-- The loop over the words, `count` in all, from the word with a number on.
unfoldable pub mock_chunks : (count i : ℕ) → List Str → List StreamChunk
mock_chunks count i [] = []
mock_chunks count i (w ∷ ws) = mock_chunk count i w ∷ mock_chunks count (suc i) ws

-- The words that are streamed.
abbrev pub mock_words : Unicode → UnifiedRequest → List Str
mock_words u r = split_whitespace u (utf8 "Mock stream response to: " ++ last_user_message r)

unfoldable pub mock_stream : Unicode → UnifiedRequest → List (Result StreamChunk)
unfolding mock_chunks
mock_stream u r = let words = mock_words u r in map ok (mock_chunks (length words) 0 words)

abbrev pub mock_provider : {S : Type 0} → Unicode → MockProvider → Provider S
mock_provider u m = record {
  name = m.name;
  supported_models = m.models;
  complete = λ r s. (ok (mock_complete m r), s);
  complete_stream = λ r s. (ok (mock_stream u r), s);
  health_check = λ s. (record { status = healthy; latency_ms = m.latency_ms; error = none }, s);
}

-- `0..n`.
abbrev pub days_up_to : ℕ → List ℕ
days_up_to zero = []
days_up_to (suc n) = days_up_to n ++ n ∷ []

-- The daily costs of the store: 10.0 + d * 0.5 for each day, whatever was recorded.
abbrev pub mock_daily : Arithmetic → ℕ → List F64
mock_daily ar days =
    map (λ d. ar.add 0x4024000000000000 (ar.mul (ar.of_nat d) 0x3fe0000000000000)) (days_up_to days)

abbrev pub mock_store : Arithmetic → EventStore (List CostEvent)
mock_store ar = record {
  record_cost = λ e events. some (events ++ e ∷ []);
  daily_costs = λ now days events. some (mock_daily ar days);
  all_cost_events = λ events. some events;
  all_metrics = λ events. some [];
  ping = λ events. true;
}
