-- ===== src/Routing/Provider.antt =====
-- The trait `Provider` of contracts.rs and the registry, provider/mod.rs. A provider is what it
-- answers; its calls may change the state `S` of the world.
use neu_rust.Prelude.{
  ◌∷◌, ◌++◌, if◌then◌else◌, [], none, some, List, Bool, Option, map, any, find, ℕ,
}
use mathlib.Core.Option
use neu_rust.Prelude.Text.{Str, str_eq, utf8}
use neu_rust.Contracts.{UnifiedRequest, UnifiedResponse, StreamChunk, ProviderHealth}

pub data Result (A : Type 0) : Type 0 where
  ok : A → Result A
  err : Str → Result A

pub record Provider (S : Type 0) : Type 0 where
  pub name : Str
  pub supported_models : List Str
  pub complete : UnifiedRequest → S → Result UnifiedResponse × S
  pub complete_stream : UnifiedRequest → S → Result (List (Result StreamChunk)) × S
  pub health_check : S → ProviderHealth × S

pub record ProviderConfig : Type 0 where
  pub id : Str
  pub provider_type : Str
  pub api_key_env : Str
  pub base_url : Option Str
  pub models : List Str
  pub priority : Option ℕ
  pub max_connections : Option ℕ

module _ {S : Type 0} where
  -- `supported_models().contains(model)`.
  abbrev pub supports : Str → Provider S → Bool
  supports model p = any (λ m. str_eq m model) p.supported_models

  abbrev pub is_named : Str → Provider S → Bool
  is_named name p = str_eq p.name name

  unfoldable pub register : List (Provider S) → Provider S → List (Provider S)
  register ps p = ps ++ p ∷ []

  unfoldable pub get_provider : List (Provider S) → Str → Option (Provider S)
  get_provider ps model = find (supports model) ps

  unfoldable pub get_by_name : List (Provider S) → Str → Option (Provider S)
  get_by_name ps name = find (is_named name) ps

  unfoldable pub all_models : List (Provider S) → List (Str × Str)
  all_models [] = []
  all_models (p ∷ ps) = map (λ m. (m, p.name)) p.supported_models ++ all_models ps

-- `ProviderRegistry::from_configs`: the environment gives the keys, and a constructor for each
-- type of provider takes the configuration and the key.
module _ {S : Type 0} (env : Str → Option Str)
    (openai anthropic : ProviderConfig → Str → Provider S) where
  from_config : ProviderConfig → Option (Provider S)
  from_config cfg =
      if str_eq cfg.provider_type (utf8 "openai")
      then Option.map (openai cfg) (env cfg.api_key_env)
      else if str_eq cfg.provider_type (utf8 "anthropic")
      then Option.map (anthropic cfg) (env cfg.api_key_env)
      else none

  unfoldable pub from_configs : List (ProviderConfig) → List (Provider S)
  unfolding from_config
  from_configs [] = []
  from_configs (c ∷ cs) = elim (from_config c) [
    | none ↦ from_configs cs
    | some p ↦ p ∷ from_configs cs
  ]
