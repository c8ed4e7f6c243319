-- ===== src/Gateway/Inference.antt =====
-- The endpoint of chat completions, routes/inference.rs, without streams: validation, the choice of
-- a provider, the cache, the provider's answer and what is recorded of it.
pub mod Laws
pub mod Cached
pub mod Validation
use neu_rust.Prelude.Keys.{nat_eq, text_eq}
use neu_rust.Prelude.{
  ◌%◌, ◌&&◌, ◌==◌, if◌then◌else◌, false, none, some, ◌+◌, ◌∷◌, ◌++◌, [], Option, ℕ, Bool, List,
  is_empty, map, get_or, not, true,
}
use neu_rust.Prelude.Text.{Str, str_eq, utf8}
use neu_rust.Contracts.{
  UnifiedRequest, UnifiedResponse, CostEvent, Role, TokenUsage, Value, default_context, system,
  assistant, user, StreamChunk,
}
use neu_rust.Prelude.Float.{F64, f64_le}
use neu_rust.Cache.Tiered.{Semantic, TieredCache, lookup, store}
use neu_rust.Routing.Provider.{Provider, ProviderConfig, err, ok, Result}
use neu_rust.Cache.Key.{Hasher}
use neu_rust.Gateway.State.{find_provider}

pub record OpenAiMessage : Type 0 where
  pub role : Str
  pub content : Str

pub record ChatCompletionRequest : Type 0 where
  pub model : Str
  pub messages : List OpenAiMessage
  pub temperature : Option F64
  pub max_tokens : Option ℕ
  pub stream : Option Bool
  pub extra : List (Str × Value)

unfoldable pub parse_role : Str → Role
parse_role s =
    if str_eq s (utf8 "system")
    then system
    else if str_eq s (utf8 "assistant")
    then assistant
    else user

unfoldable pub to_unified_request : ChatCompletionRequest → UnifiedRequest
unfolding parse_role
to_unified_request q = record {
  model = record { model_name = q.model; provider_id = none };
  messages = map (λ m. record { role = parse_role m.role; content = m.content }) q.messages;
  temperature = q.temperature;
  max_tokens = q.max_tokens;
  stream = get_or q.stream false;
  context = default_context;
  extra_params = q.extra;
}

-- The bits of 0.0 and 2.0.
abbrev pub in_range : F64 → Bool
in_range t = f64_le 0 t && f64_le t 0x4000000000000000

pub data ValidationError : Type 0 where
  empty_messages bad_temperature bad_max_tokens : ValidationError

abbrev pub bad_temperature? : Option F64 → Bool
bad_temperature? none = false
bad_temperature? (some t) = not (in_range t)

abbrev pub bad_max_tokens? : Option ℕ → Bool
bad_max_tokens? none = false
bad_max_tokens? (some n) = n == 0

-- The checks at the head of `chat_completions`.
unfoldable pub validate : ChatCompletionRequest → Option ValidationError
validate q =
    if is_empty q.messages
    then some empty_messages
    else if bad_temperature? q.temperature
    then some bad_temperature
    else if bad_max_tokens? q.max_tokens
    then some bad_max_tokens
    else none

-- What the gateway publishes on the event bus here, with the time in milliseconds: the tier and the
-- model of a hit, or the provider, model, latency, usage and `cached` of a completion.
pub data GatewayEvent : Type 0 where
  cache_hit : ℕ → Str → Str → GatewayEvent
  request_completed : ℕ → Str → Str → ℕ → TokenUsage → Bool → GatewayEvent

-- What the handler changes: the two counters of /metrics, the cache, the events published, the costs
-- recorded and those that the event store failed to record, of which only a warning is logged, and
-- the world behind the providers.
pub record Gateway (S C : Type 0) : Type 0 where
  pub request_count : ℕ
  pub error_count : ℕ
  pub cache : Option (TieredCache C)
  pub events : List GatewayEvent
  pub costs : List CostEvent
  pub lost : List CostEvent
  pub world : S

-- The reply: its content and usage, without the id and the time of creation.
pub record ChatCompletionResponse : Type 0 where
  pub model : Str
  pub content : Str
  pub usage : TokenUsage

pub data Reply : Type 0 where
  invalid_request : ValidationError → Reply
  unknown_model : Str → Reply
  completion : ChatCompletionResponse → Reply
  completion_error : Str → Reply
  streaming : Str → List (Result StreamChunk) → Reply
  streaming_error : Str → Reply

abbrev pub to_reply : UnifiedResponse → ChatCompletionResponse
to_reply a = record { model = a.model; content = a.content; usage = a.usage }

abbrev pub wrap64 : ℕ → ℕ
wrap64 n = n % 0x10000000000000000

-- The cost event of `handle_complete`.
abbrev pub cost_event : ℕ → UnifiedResponse → CostEvent
cost_event now_ms a = record {
  timestamp_ms = now_ms;
  provider_id = a.provider_id;
  model = a.model;
  prompt_tokens = a.usage.prompt_tokens;
  completion_tokens = a.usage.completion_tokens;
  cost_usd = 0;
  latency_ms = a.latency_ms;
  cached = false;
}

abbrev pub completed_event : ℕ → UnifiedResponse → GatewayEvent
completed_event now_ms a = request_completed now_ms a.provider_id a.model a.latency_ms a.usage false

-- What a call meets outside: the times, in nanoseconds of the monotonic clock and milliseconds of
-- the system clock, and whether `record_cost` of the event store succeeds.
pub record Clock : Type 0 where
  pub now : ℕ
  pub now_ms : ℕ
  pub recorded : Bool

-- What the task that records a cost adds to the costs, and to those that are lost.
abbrev pub recorded_cost : Bool → CostEvent → List CostEvent
recorded_cost true e = e ∷ []
recorded_cost false e = []

abbrev pub lost_cost : Bool → CostEvent → List CostEvent
lost_cost true e = []
lost_cost false e = e ∷ []

module _ {C : Type 0} (sem : Semantic C) (h : Hasher) where
  abbrev pub store_in :
      ℕ → Option (TieredCache C) → UnifiedRequest → UnifiedResponse → Option (TieredCache C)
  store_in now none r a = none
  store_in now (some t) r a = some (store sem h now t r a)

  abbrev pub lookup_in :
      ℕ → Option (TieredCache C) → UnifiedRequest → Option (TieredCache C) × Option UnifiedResponse
  lookup_in now none r = (none, none)
  lookup_in now (some t) r = let (t', a) = lookup sem h now t r in (some t', a)

module _ {S C : Type 0} (sem : Semantic C) (h : Hasher) (configs : List ProviderConfig) where
  -- The two arms of `handle_complete` and of its caller, by what the provider answers. The cost is
  -- recorded by a task of its own, which logs a warning if that fails.
  abbrev pub settle :
      Clock → UnifiedRequest → Gateway S C → Result UnifiedResponse × S → Reply × Gateway S C
  settle c r g (err e, world) =
      (completion_error e, record g { error_count = wrap64 (g.error_count + 1); world = world })
  settle c r g (ok a, world) = (
    completion (to_reply a),
    record g {
      cache = store_in sem h c.now g.cache r a;
      costs = g.costs ++ recorded_cost c.recorded (cost_event c.now_ms a);
      lost = g.lost ++ lost_cost c.recorded (cost_event c.now_ms a);
      events = g.events ++ completed_event c.now_ms a ∷ [];
      world = world;
    },
  )

  unfoldable pub handle_complete :
      Clock → Provider S → UnifiedRequest → Gateway S C → Reply × Gateway S C
  handle_complete c p r g = settle c r g (p.complete r g.world)

  -- `handle_stream` up to the reply, with its arm; what the stream sends is modelled in Stream.
  unfoldable pub start_stream : Provider S → UnifiedRequest → Gateway S C → Reply × Gateway S C
  start_stream p r g =
      let (answer, world) = p.complete_stream r g.world in
      elim answer [
        | err e ↦ (
          streaming_error e,
          record g { error_count = wrap64 (g.error_count + 1); world = world },
        )
        | ok chunks ↦ (streaming r.model.model_name chunks, record g { world = world })
      ]

  -- The handler of a whole completion after the lookup in the cache.
  unfoldable pub answer :
      Clock
      → Provider S
      → ChatCompletionRequest
      → Gateway S C
      → Option (TieredCache C) × Option UnifiedResponse
      → Reply × Gateway S C
  unfolding handle_complete to_unified_request
  answer c p q g (cache', none) =
      handle_complete c p (to_unified_request q) (record g { cache = cache' })
  answer c p q g (cache', some a) = (
    completion (to_reply a),
    record g {
      cache = cache';
      events = g.events ++ cache_hit c.now_ms (utf8 "tiered") q.model ∷ [];
    },
  )

  -- The handler after its validation and the choice of a provider.
  unfoldable pub serve :
      Clock → Provider S → ChatCompletionRequest → Gateway S C → Reply × Gateway S C
  unfolding answer start_stream to_unified_request
  serve c p q g =
      let r = to_unified_request q in
      let whole = answer c p q g (lookup_in sem h c.now g.cache r) in
      if get_or q.stream false then start_stream p r g else whole

  -- `chat_completions`; a stream is handed on to `handle_stream`.
  unfoldable pub chat_completions :
      Clock → List (Provider S) → ChatCompletionRequest → Gateway S C → Reply × Gateway S C
  unfolding validate serve
  chat_completions c providers q g0 =
      let g = record g0 { request_count = wrap64 (g0.request_count + 1) } in
      elim (validate q) [
        | some e ↦ (invalid_request e, g)
        | none ↦ elim (find_provider configs providers q.model) [
          | none ↦ (unknown_model q.model, g)
          | some p ↦ serve c p q g
        ]
      ]
