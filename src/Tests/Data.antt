-- ===== src/Tests/Data.antt =====
-- The requests, responses and providers that the examples share.
use neu_rust.Prelude.{◌+◌, ◌∷◌, if◌then◌else◌, [], true, false, none, some, List, Bool, ℕ, ap}
use neu_rust.Prelude.Text.{utf8, Str, concat}
use neu_rust.Contracts.{TokenUsage, UnifiedRequest, UnifiedResponse, user, default_context, healthy}
use neu_rust.Routing.Provider.{Provider, ok, err}
use neu_rust.Cache.Key.{Hasher}

abbrev pub usage : TokenUsage
usage = record { prompt_tokens = 3; completion_tokens = 2; total_tokens = 5 }

abbrev pub hello : UnifiedResponse
hello = record {
  content = utf8 "hello";
  model = utf8 "m";
  usage = usage;
  provider_id = utf8 "a";
  latency_ms = 7;
  upstream_id = none;
}

abbrev pub question : UnifiedRequest
question = record {
  model = record { model_name = utf8 "m"; provider_id = none };
  messages = record { role = user; content = utf8 "hi" } ∷ [];
  temperature = none;
  max_tokens = some 9;
  stream = false;
  context = default_context;
  extra_params = [];
}

-- A provider of the model "m" that counts its calls and answers with `hello`, or fails.
abbrev pub server : Str → Bool → Provider ℕ
server name works = record {
  name = name;
  supported_models = utf8 "m" ∷ [];
  complete = λ r s. (if works then ok hello else err (utf8 "down"), s + 1);
  complete_stream = λ r s. (ok [], s + 1);
  health_check = λ s. (record { status = healthy; latency_ms = 0; error = none }, s);
}

abbrev pub servers : List (Provider ℕ)
servers = server (utf8 "a") false ∷ server (utf8 "b") true ∷ []

-- A hash function of the bytes: their sum.
abbrev pub total : Str → ℕ
total [] = 0
total (c ∷ s) = c + total s

abbrev pub sum_hash : Hasher
sum_hash = record { digest = λ xs. total (concat xs); streams = λ xs ys h. ap total h }
