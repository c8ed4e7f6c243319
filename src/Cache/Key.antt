-- ===== src/Cache/Key.antt =====
-- The key of a request in the cache, cache/cache_key.rs. The hash function xxh64 is a parameter:
-- the number that it gives for the chunks of bytes written to it, in order.
use neu_rust.Prelude.{
  ◌≡◌, ◌/◌, ◌%◌, ◌∷◌, ◌++◌, [], zero, suc, none, some, List, Option, ℕ, length, ◌∙◌, sym,
}
use mathlib.Core.Option
use neu_rust.Contracts.{UnifiedRequest, system_message_text, last_user_message}
use neu_rust.Prelude.Text.{Str, concat}
use mathlib.Core.List.{append_assoc}
use mathlib.Core.Path.{ap₂}

-- `to_le_bytes` of a number of the given width in bytes.
unfoldable pub to_le_bytes : ℕ → ℕ → Str
to_le_bytes zero x = []
to_le_bytes (suc n) x = (x % 256) ∷ to_le_bytes n (x / 256)

abbrev pub optional : Option Str → List Str
optional none = []
optional (some b) = b ∷ []

-- The writes of `compute_cache_key` after those of the two texts.
unfoldable pub settings_chunks : UnifiedRequest → List Str
settings_chunks r =
    r.model.model_name
    ∷ to_le_bytes 8 (length r.messages)
    ∷ (optional (Option.map (to_le_bytes 8) r.temperature)
        ++ optional (Option.map (to_le_bytes 4) r.max_tokens))

unfoldable pub key_chunks : UnifiedRequest → List Str
unfolding settings_chunks
key_chunks r = system_message_text r ∷ last_user_message r ∷ settings_chunks r

-- xxh64 with seed 0, as a streaming hash: what counts is the bytes and not how they were cut.
pub record Hasher : Type 0 where
  pub digest : List Str → ℕ
  pub streams : (xs ys : List Str) → concat xs ≡ concat ys → digest xs ≡ digest ys

unfoldable pub compute_cache_key : Hasher → UnifiedRequest → ℕ
unfolding key_chunks
compute_cache_key h r = h.digest (key_chunks r)

-- Two requests that agree in what is written after the two texts: model, number of messages,
-- temperature and limit of tokens.
pub record SameSettings (a b : UnifiedRequest) : Type 0 where
  pub model_name : a.model.model_name ≡ b.model.model_name
  pub turns : length a.messages ≡ length b.messages
  pub temperature : a.temperature ≡ b.temperature
  pub max_tokens : a.max_tokens ≡ b.max_tokens

settings_chunks_eq :
    (a b : UnifiedRequest) → SameSettings a b → settings_chunks a ≡ settings_chunks b
unfolding settings_chunks
settings_chunks_eq a b s = cc (s.model_name, s.turns, s.temperature, s.max_tokens)

concat-key_chunks :
    (a b : UnifiedRequest)
    → SameSettings a b
    → system_message_text a ++ last_user_message a ≡ system_message_text b ++ last_user_message b
    → concat (key_chunks a) ≡ concat (key_chunks b)
unfolding key_chunks
concat-key_chunks a b s h =
    sym (append_assoc (system_message_text a) (last_user_message a) (concat (settings_chunks a)))
    ∙ (ap₂ (λ x y. x ++ concat y) h (settings_chunks_eq a b s)
        ∙ append_assoc (system_message_text b) (last_user_message b) (concat (settings_chunks b)))

-- The key is that of the texts joined: of two requests with the same settings whose system text
-- followed by the last user message is the same, the keys are the same, wherever one text ends and
-- the other begins, and whatever the other messages are.
pub compute_cache_key_shift :
    (h : Hasher) (a b : UnifiedRequest)
    → SameSettings a b
    → system_message_text a ++ last_user_message a ≡ system_message_text b ++ last_user_message b
    → compute_cache_key h a ≡ compute_cache_key h b
unfolding compute_cache_key
compute_cache_key_shift h a b s e =
    h.streams (key_chunks a) (key_chunks b) (concat-key_chunks a b s e)
