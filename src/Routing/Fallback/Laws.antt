-- ===== src/Routing/Fallback/Laws.antt =====
-- The loop of the fallback executor against a plain description.
use neu_rust.Prelude.{
  ◌≡◌, ◌+◌, ◌∷◌, ◌++◌, [], arith, zero, suc, none, ℕ, List, Option, filter, get_or, take, refl,
  false, lt→ltb, ltb, some,
}
use neu_rust.Routing.Provider.{supports, Provider, Result, err, ok}
use neu_rust.Contracts.{UnifiedRequest, UnifiedResponse}
use neu_rust.Prelude.Text.{Str, utf8}
use neu_rust.Routing.Fallback.{execute_with_fallback, fallback_from}

abbrev pub no_providers : UnifiedRequest → Str
no_providers r = utf8 "No providers available for model: " ++ r.model.model_name

error_of : Result UnifiedResponse → Str
error_of (ok response) = []
error_of (err e) = e

module _ {S : Type 0} (r : UnifiedRequest) where
  -- Ask each provider in turn until one answers; the last error if none does.
  unfoldable pub first_answer : Str → List (Provider S) → S → Result UnifiedResponse × S
  first_answer e [] s = (err e, s)
  first_answer e (p ∷ ps) s =
      let (answer, s') = p.complete r s in
      elim answer [ ok response ↦ (ok response, s') | err e' ↦ first_answer e' ps s' ]

  -- The providers that are asked: those of the first `n` that support the model.
  abbrev pub candidates : ℕ → List (Provider S) → List (Provider S)
  candidates n ps = filter (supports r.model.model_name) (take n ps)

  fallback_from-first_answer :
      (max_retries attempt left : ℕ) (last : Option Str) (ps : List (Provider S)) (s : S)
      → attempt + left ≡ max_retries + 1
      → fallback_from max_retries r attempt last ps s
        ≡ first_answer (get_or last (no_providers r)) (candidates left ps) s
  unfolding fallback_from first_answer error_of
  fallback_from-first_answer max_retries attempt zero last [] s h = refl
  fallback_from-first_answer max_retries attempt (suc left) last [] s h = refl
  fallback_from-first_answer max_retries attempt zero last (p ∷ ps) s h =
      rw (lt→ltb max_retries attempt (omega arith), fallback_from)
  fallback_from-first_answer max_retries attempt (suc left) last (p ∷ ps) s h =
      let more : ltb max_retries attempt ≡ false = ground arith in
      ground (
        arith,
        fallback_from-first_answer max_retries (attempt + 1) left last ps s (omega arith),
        fallback_from-first_answer max_retries (attempt + 1) left
            (some (error_of (p.complete r s).0)) ps (p.complete r s).1 (omega arith),
      )

  -- The executor asks, in order and each once, the providers that support the model among the
  -- first `max_retries + 1` of all, and returns the first answer; the last error if all fail.
  pub execute_with_fallback-first_answer :
      (max_retries : ℕ) (ps : List (Provider S)) (s : S)
      → execute_with_fallback max_retries r ps s
        ≡ first_answer (no_providers r) (candidates (max_retries + 1) ps) s
  unfolding execute_with_fallback
  execute_with_fallback-first_answer max_retries ps s =
      fallback_from-first_answer max_retries 0 (max_retries + 1) none ps s (omega arith)
