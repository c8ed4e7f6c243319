-- ===== src/Gateway/Inference/Validation.antt =====
-- Which requests the endpoint takes.
use mathlib.Core.Option.{some-injective}
use neu_rust.Prelude.{
  ◌≡◌, ◌≤◌, ◌<◌, ◌↔◌, ◌⊎◌, arith, true, ◌≢◌, false, none, some, is_empty, refl, Option, ℕ, sym,
}
use neu_rust.Gateway.Inference.{
  in_range, validate, ChatCompletionRequest, bad_temperature?, bad_max_tokens?,
}
use neu_rust.Prelude.Float.{F64}

in_range_iff :
    (t : F64)
    → t < 0x10000000000000000
    → (in_range t ≡ true) ↔ ((t ≤ 0x4000000000000000) ⊎ (t ≡ 0x8000000000000000))
in_range_iff t h = ground arith

bad_temperature?_lem :
    (o : Option F64) → (bad_temperature? o ≡ false) ↔ ((t : F64) → o ≡ some t → in_range t ≡ true)
bad_temperature?_lem none = (λ h t e. absurd (cc e), λ h. refl)
bad_temperature?_lem (some t) =
    (λ h u e. rw (sym (some-injective t u e)) (ground arith), λ h. rw (h t refl) refl)

bad_max_tokens?_lem : (o : Option ℕ) → (bad_max_tokens? o ≡ false) ↔ (o ≢ some 0)
bad_max_tokens?_lem none = (λ h e. cc e, λ h. refl)
bad_max_tokens?_lem (some n) = ground arith

in_range_all :
    (o : Option F64)
    → ((t : F64) → o ≡ some t → t < 0x10000000000000000)
    → ((t : F64) → o ≡ some t → in_range t ≡ true)
      ↔ ((t : F64) → o ≡ some t → (t ≤ 0x4000000000000000) ⊎ (t ≡ 0x8000000000000000))
in_range_all o bits =
    (λ h t e. (in_range_iff t (bits t e)).0 (h t e), λ h t e. (in_range_iff t (bits t e)).1 (h t e))

-- The requests that pass the checks: those with a message, with a temperature, if any, whose bits
-- are at most those of 2.0 or are those of -0.0, so neither negative nor NaN nor infinite, and with
-- a limit of tokens, if any, that is not 0. The bits of the temperature fit in 64.
pub validate_iff :
    (q : ChatCompletionRequest)
    → ((t : F64) → q.temperature ≡ some t → t < 0x10000000000000000)
    → (validate q ≡ none) ↔ (
        (is_empty q.messages ≡ false)
        × ((t : F64) → q.temperature ≡ some t → (t ≤ 0x4000000000000000) ⊎ (t ≡ 0x8000000000000000))
        × (q.max_tokens ≢ some 0))
unfolding validate
validate_iff q bits = ground (
  arith,
  bad_temperature?_lem q.temperature,
  in_range_all q.temperature bits,
  bad_max_tokens?_lem q.max_tokens,
)
