-- ===== src/Routing/Fallback.antt =====
-- Trying one provider after another, router/fallback.rs.
pub mod Laws
use neu_rust.Prelude.{
  ◌+◌, ◌∷◌, ◌++◌, if◌then◌else◌, [], none, some, ℕ, List, Option, get_or, ltb, not,
}
use neu_rust.Contracts.{UnifiedRequest, UnifiedResponse}
use neu_rust.Prelude.Text.{Str, utf8}
use neu_rust.Routing.Provider.{Provider, Result, err, supports, ok}

module _ {S : Type 0} (max_retries : ℕ) (r : UnifiedRequest) where
  -- The loop over `providers.all().iter().enumerate()`, with the last error so far.
  unfoldable pub fallback_from : ℕ → Option Str → List (Provider S) → S → Result UnifiedResponse × S
  fallback_from attempt last_error [] s =
      (err (get_or last_error (utf8 "No providers available for model: " ++ r.model.model_name)), s)
  fallback_from attempt last_error (p ∷ ps) s =
      if ltb max_retries attempt
      then (
        err (get_or last_error (utf8 "No providers available for model: " ++ r.model.model_name)),
        s,
      )
      else if not (supports r.model.model_name p)
      then fallback_from (attempt + 1) last_error ps s
      else let (answer, s') = p.complete r s in
        elim answer [
          | ok response ↦ (ok response, s')
          | err e ↦ fallback_from (attempt + 1) (some e) ps s'
        ]

  unfoldable pub execute_with_fallback : List (Provider S) → S → Result UnifiedResponse × S
  unfolding fallback_from
  execute_with_fallback providers s = fallback_from 0 none providers s
