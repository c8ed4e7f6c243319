-- ===== src/Contracts.antt =====
-- The shared contracts, crates/neurust-core/src/contracts.rs: requests, responses, providers'
-- health and cost events. A `serde_json::Value` is kept as its text.
use neu_rust.Prelude.{
  ◌/◌, max, length, ℕ, Bool, List, [], map, reverse, Option, none, some, filter, find, true, false,
}
use neu_rust.Prelude.Float.{F64}
use neu_rust.Prelude.Text.{Str, join, utf8}

abbrev pub Value : Type 0
Value = Str

pub record ModelSpec : Type 0 where
  pub model_name : Str
  pub provider_id : Option Str

pub data Role : Type 0 where
  system user assistant : Role

abbrev pub is_system : Role → Bool
is_system system = true
is_system user = false
is_system assistant = false

abbrev pub is_user : Role → Bool
is_user system = false
is_user user = true
is_user assistant = false

pub record Message : Type 0 where
  pub role : Role
  pub content : Str

pub record RequestContext : Type 0 where
  pub request_type : Option Str
  pub budget_remaining_ratio : F64
  pub client_id : Option Str
  pub api_key : Option Str

-- `RequestContext::default()`.
abbrev pub default_context : RequestContext
default_context = record {
  request_type = none;
  budget_remaining_ratio = 0;
  client_id = none;
  api_key = none;
}

pub record UnifiedRequest : Type 0 where
  pub model : ModelSpec
  pub messages : List Message
  pub temperature : Option F64
  pub max_tokens : Option ℕ
  pub stream : Bool
  pub context : RequestContext
  pub extra_params : List (Str × Value)

-- The text of the system messages, one to a line.
unfoldable pub system_message_text : UnifiedRequest → Str
system_message_text r =
    join (map (λ m. m.content) (filter (λ m. is_system m.role) r.messages)) (utf8 "\n")

abbrev last_user : List Message → Str
last_user ms = elim (find (λ m. is_user m.role) (reverse ms)) [ none ↦ [] | some m ↦ m.content ]

unfoldable pub last_user_message : UnifiedRequest → Str
last_user_message r = last_user r.messages

pub record TokenUsage : Type 0 where
  pub prompt_tokens : ℕ
  pub completion_tokens : ℕ
  pub total_tokens : ℕ

pub record UnifiedResponse : Type 0 where
  pub content : Str
  pub model : Str
  pub usage : TokenUsage
  pub provider_id : Str
  pub latency_ms : ℕ
  pub upstream_id : Option Str

pub record StreamChunk : Type 0 where
  pub delta : Str
  pub finished : Bool
  pub usage : Option TokenUsage

abbrev pub token_count : StreamChunk → ℕ
token_count c = max (length c.delta / 4) 1

pub data HealthStatus : Type 0 where
  healthy degraded down : HealthStatus

pub record ProviderHealth : Type 0 where
  pub status : HealthStatus
  pub latency_ms : ℕ
  pub error : Option Str

pub record CostEvent : Type 0 where
  pub timestamp_ms : ℕ
  pub provider_id : Str
  pub model : Str
  pub prompt_tokens : ℕ
  pub completion_tokens : ℕ
  pub cost_usd : F64
  pub latency_ms : ℕ
  pub cached : Bool
