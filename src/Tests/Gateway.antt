-- ===== src/Tests/Gateway.antt =====
-- The gateway at concrete inputs.
use neu_rust.Prelude.Sort.{sort_by}
use neu_rust.Gateway.State.{priority_of, find_provider}
use neu_rust.Cache.Exact.{get}
use neu_rust.Prelude.Maps
use neu_rust.Prelude.{
  ◌≡◌, ◌∷◌, ◌↔◌, ◌⊎◌, if◌then◌else◌, [], refl, arith, true, false, none, some, List, is_empty, ℕ,
  In, Option, any, min, length,
}
use neu_rust.Prelude.Keys.{nat_eq, text_eq}
use neu_rust.Tests.Data.{sum_hash, hello, servers, server, usage}
use neu_rust.Cache.Tiered.{lookup, Semantic, TieredCache}
use neu_rust.Gateway.Auth.{
  ApiKeyEntry, HttpRequest, auth_middleware, is_open_path, validate_key, extract_token, valid,
  invalid, panicked,
}
use neu_rust.Gateway.Auth.Laws.{is_pass, auth_middleware-pass_iff, validate_key-cases}
use neu_rust.Prelude.Text.{Str, utf8, str_eq}
use neu_rust.Gateway.Inference.{
  ChatCompletionRequest, Clock, Gateway, chat_completions, validate, to_unified_request, completion,
  to_reply,
}
use neu_rust.Gateway.Stream.Laws.{
  IsStream, text_of, deltas, sse_stream-IsStream, delivered, text-sse_stream,
}
use neu_rust.Routing.Provider.{ProviderConfig, Result, ok, err}
use neu_rust.Gateway.State.Laws.{IsBest, find_provider-IsBest}
use neu_rust.Gateway.Inference.Laws.{Effect, chat_completions-Effect}
use neu_rust.Gateway.Stream.{sse_stream}
use neu_rust.Contracts.{StreamChunk}
use neu_rust.Gateway.Inference.Cached.{chat_completions_again}
use neu_rust.Prelude.Unicode.{is_char_boundary}

abbrev pub alice : ApiKeyEntry
alice = record { key = utf8 "sk-1"; name = utf8 "alice"; rate_limit = none }

abbrev signed : HttpRequest
signed = record {
  path = utf8 "/v1/models";
  authorization = some (utf8 "Bearer sk-1");
  x_api_key = none;
}

auth_middleware-pass_iff_example : (is_pass (auth_middleware (some (alice ∷ [])) signed) ≡ true) ↔ (
    (is_open_path signed.path ≡ true)
    ⊎ ((t : Str) × (extract_token signed ≡ some t)
        × (any (λ k. str_eq k.key t) (alice ∷ []) ≡ true)))
auth_middleware-pass_iff_example = auth_middleware-pass_iff (alice ∷ []) signed refl

abbrev key_cut : Str
key_cut = utf8 "sk-é"

validate_key-cases_example :
    ((is_empty (alice ∷ []) ≡ true)
      × (validate_key (alice ∷ []) key_cut ≡ valid (utf8 "anonymous")))
    ⊎ ((k : ApiKeyEntry) × In k (alice ∷ [])
        × (k.key ≡ key_cut)
        × (validate_key (alice ∷ []) key_cut ≡ valid k.name))
    ⊎ ((is_empty (alice ∷ []) ≡ false)
        × (any (λ k. str_eq k.key key_cut) (alice ∷ []) ≡ false)
        × (validate_key (alice ∷ []) key_cut
            ≡ (if is_char_boundary key_cut (min (length key_cut) 4) then invalid else panicked)))
validate_key-cases_example = validate_key-cases (alice ∷ []) key_cut

abbrev pub config : Str → Option ℕ → ProviderConfig
config id priority = record {
  id = id;
  provider_type = utf8 "openai";
  api_key_env = utf8 "KEY";
  base_url = none;
  models = utf8 "m" ∷ [];
  priority = priority;
  max_connections = none;
}

abbrev pub configs : List ProviderConfig
configs = config (utf8 "a") none ∷ config (utf8 "b") (some 1) ∷ []

find_provider-IsBest_example : IsBest configs (utf8 "m") servers (server (utf8 "b") true)
unfolding find_provider sort_by priority_of
find_provider-IsBest_example =
    find_provider-IsBest configs servers (utf8 "m") (server (utf8 "b") true) refl

abbrev pub no_semantic : Semantic ℕ
no_semantic = record { lookup = λ now s q. (s, none); store = λ now s q a. s }

abbrev pub call : ChatCompletionRequest
call = record {
  model = utf8 "m";
  messages = record { role = utf8 "user"; content = utf8 "hi" } ∷ [];
  temperature = some 0x3ff0000000000000;
  max_tokens = none;
  stream = none;
  extra = [];
}

abbrev pub cold : TieredCache ℕ
cold = record {
  exact = record { map = []; max_entries = 2; default_ttl = 50 };
  semantic = none;
  warmer = none;
}

abbrev pub gateway : Gateway ℕ ℕ
gateway = record {
  request_count = 0;
  error_count = 0;
  cache = some cold;
  events = [];
  costs = [];
  lost = [];
  world = 0;
}

abbrev pub at_once : Clock
at_once = record { now = 100; now_ms = 1; recorded = true }

abbrev soon : Clock
soon = record { now = 150; now_ms = 2; recorded = false }

chat_completions-Effect_example :
    let out = chat_completions no_semantic sum_hash configs at_once servers call gateway in
    Effect no_semantic sum_hash configs at_once servers call
      (record gateway { request_count = 1 })
      out.0
      out.1
chat_completions-Effect_example =
    chat_completions-Effect no_semantic sum_hash configs at_once servers call gateway

chat_completions_again_example :
    let (reply, g') = chat_completions no_semantic sum_hash configs at_once servers call gateway in
    let (reply', g'') = chat_completions no_semantic sum_hash configs soon servers call g' in
    (reply ≡ completion (to_reply hello))
    × (reply' ≡ completion (to_reply hello))
    × (g''.world ≡ 1)
    × (g''.costs ≡ g'.costs)
unfolding validate find_provider to_unified_request lookup sort_by priority_of get Maps.lookup
chat_completions_again_example =
    chat_completions_again no_semantic sum_hash configs at_once soon servers call gateway cold
      (server (utf8 "b") true) hello 1 (refl, refl, refl) refl refl refl (omega arith)

abbrev items : List (Result StreamChunk)
items =
    ok (record { delta = utf8 "he"; finished = false; usage = none })
    ∷ ok (record { delta = utf8 "llo"; finished = true; usage = some usage })
    ∷ err (utf8 "late")
    ∷ []

text-sse_stream_example : text_of (sse_stream (utf8 "m") items).0 ≡ deltas (delivered items)
text-sse_stream_example = text-sse_stream (utf8 "m") items

sse_stream-IsStream_example : IsStream (sse_stream (utf8 "m") items).0
sse_stream-IsStream_example = sse_stream-IsStream (utf8 "m") items
