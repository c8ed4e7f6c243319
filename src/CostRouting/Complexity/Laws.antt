-- ===== src/CostRouting/Complexity/Laws.antt =====
-- What the gate lets through, and how it classifies.
use neu_rust.Prelude.{
  ◌≡◌, ◌≤◌, ◌<◌, ◌∷◌, ◌↔◌, ◌⊎◌, if◌then◌else◌, [], refl, arith, inl, inr, true, false, Bool, List,
  is_empty, filter, any, not, Bool-cases, ℕ, leb,
}
use neu_rust.CostRouting.Complexity.{
  simple, medium, classify, filter_models, ComplexityGateConfig, ComplexityLevel, has_tools, fits,
  total_tokens_of, complex,
}
use neu_rust.Prelude.Text.{Str}
use neu_rust.Prelude.Float.{Arithmetic}
use neu_rust.Contracts.{ModelSpec, UnifiedRequest}

is_empty-filter :
    {A : Type 0} (p : A → Bool) (xs : List A) → is_empty (filter p xs) ≡ not (any p xs)
is_empty-filter p [] = refl
is_empty-filter p (x ∷ xs) = ground (arith, is_empty-filter p xs)

-- Of a list of candidates that is not empty the gate never leaves none: it gives the models of the
-- tier, in their order, if there are any, and all the candidates otherwise.
pub filter_models_lem :
    (to_lowercase : Str → Str) (level : ComplexityLevel) (models : List ModelSpec)
    → is_empty models ≡ false
    → (is_empty (filter_models to_lowercase level models) ≡ false)
      × (filter_models to_lowercase level models ≡ (
          if any (fits to_lowercase level) models
          then filter (fits to_lowercase level) models
          else models))
unfolding filter_models
filter_models_lem to_lowercase level models some_model =
    let e = is_empty-filter (fits to_lowercase level) models in
    elim (Bool-cases (any (fits to_lowercase level) models)) [
      | inl fit ↦ (ground arith, ground arith)
      | inr unfit ↦ (ground arith, ground arith)
    ]

level_iff :
    (tools : Bool) (total low high : ℕ)
    → let level =
        if tools
        then complex
        else if leb total low
        then simple
        else if leb high total
        then complex
        else medium in
      ((level ≡ simple) ↔ ((tools ≡ false) × (total ≤ low)))
      × ((level ≡ complex) ↔ ((tools ≡ true) ⊎ ((low < total) × (high ≤ total))))
level_iff true total low high = ground arith
level_iff false total low high = ground arith

-- A request is simple exactly if it has no tools and its tokens are at most the lower threshold;
-- it is complex exactly if it has tools, or its tokens are above the lower threshold and not below
-- the upper one.
pub classify_iff :
    (ar : Arithmetic) (config : ComplexityGateConfig) (r : UnifiedRequest)
    → ((classify ar config r ≡ simple)
        ↔ ((has_tools r ≡ false) × (total_tokens_of ar config r ≤ config.simple_max_tokens)))
      × ((classify ar config r ≡ complex) ↔ (
          (has_tools r ≡ true)
          ⊎ ((config.simple_max_tokens < total_tokens_of ar config r)
              × (config.complex_min_tokens ≤ total_tokens_of ar config r))))
unfolding classify
classify_iff ar config r =
    level_iff (has_tools r) (total_tokens_of ar config r) config.simple_max_tokens
      config.complex_min_tokens
