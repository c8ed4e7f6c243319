-- ===== src/CostRouting/Complexity.antt =====
-- The complexity gate, router/complexity_gate.rs. The arithmetic of doubles and `to_lowercase`,
-- which knows all of Unicode, are parameters.
pub mod Laws
use neu_rust.Prelude.{
  ◌/◌, ◌∷◌, ◌||◌, if◌then◌else◌, [], true, ℕ, Bool, List, leb, ltb, max, filter, length, is_empty,
}
use neu_rust.Prelude.Keys.{text_eq, nat_eq}
use neu_rust.Prelude.Maps
use neu_rust.Prelude.Text.{contains, Str, utf8}
use neu_rust.Contracts.{UnifiedRequest, ModelSpec, Message, is_system}
use neu_rust.Prelude.Float.{Arithmetic, F64}

pub data ComplexityLevel : Type 0 where
  simple medium complex : ComplexityLevel

pub record ComplexityGateConfig : Type 0 where
  pub simple_max_tokens : ℕ
  pub complex_min_tokens : ℕ
  pub system_prompt_weight : F64

-- `Default`; the weight is 1.5.
abbrev pub default_gate : ComplexityGateConfig
default_gate = record {
  simple_max_tokens = 200;
  complex_min_tokens = 2000;
  system_prompt_weight = 0x3ff8000000000000;
}

abbrev pub estimate_tokens : Str → ℕ
estimate_tokens text = max (length text / 4) 1

abbrev pub has_tools : UnifiedRequest → Bool
has_tools r =
    Maps.contains_key (utf8 "tools") r.extra_params
    || (Maps.contains_key (utf8 "functions") r.extra_params
        || Maps.contains_key (utf8 "tool_choice") r.extra_params)

module _ (ar : Arithmetic) (config : ComplexityGateConfig) where
  -- The loop over the messages.
  unfoldable pub add_tokens : List Message → F64 → F64
  add_tokens [] acc = acc
  add_tokens (m ∷ ms) acc =
      let tokens = ar.of_nat (estimate_tokens m.content) in
      add_tokens ms (
        ar.add acc (if is_system m.role then ar.mul tokens config.system_prompt_weight else tokens))

  -- The factors are 1.3 and 1.1.
  unfoldable pub total_tokens_of : UnifiedRequest → ℕ
  unfolding add_tokens
  total_tokens_of r =
      let estimated = add_tokens r.messages 0 in
      ar.to_nat (
        if ltb 10 (length r.messages)
        then ar.mul estimated 0x3ff4cccccccccccd
        else if ltb 5 (length r.messages)
        then ar.mul estimated 0x3ff199999999999a
        else estimated)

  unfoldable pub classify : UnifiedRequest → ComplexityLevel
  classify r =
      if has_tools r
      then complex
      else if leb (total_tokens_of r) config.simple_max_tokens
      then simple
      else if leb config.complex_min_tokens (total_tokens_of r)
      then complex
      else medium

-- The models of a tier, by their lower-case names.
abbrev pub fits : (Str → Str) → ComplexityLevel → ModelSpec → Bool
fits to_lowercase simple m =
    let name = to_lowercase m.model_name in
    contains name (utf8 "nano") || (contains name (utf8 "mini") || contains name (utf8 "haiku"))
fits to_lowercase medium m =
    let name = to_lowercase m.model_name in
    contains name (utf8 "mini")
    || (contains name (utf8 "haiku")
        || (contains name (utf8 "sonnet")
            || (contains name (utf8 "4o") || contains name (utf8 "4.1"))))
fits to_lowercase complex m = true

unfoldable pub filter_models : (Str → Str) → ComplexityLevel → List ModelSpec → List ModelSpec
filter_models to_lowercase level models =
    let filtered = filter (fits to_lowercase level) models in
    if is_empty models then [] else if is_empty filtered then models else filtered
