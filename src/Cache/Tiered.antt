-- ===== src/Cache/Tiered.antt =====
-- The two tiers behind one interface, cache/mod.rs. The semantic tier is built in only under the
-- feature `cache-semantic`; here it is an interface, and `none` where it is not in use.
pub mod Laws
use neu_rust.Prelude.Keys.{nat_eq, text_eq}
use neu_rust.Prelude.{none, some, ℕ, Option}
use neu_rust.Cache.Exact.{get, insert, ExactCache}
use neu_rust.Cache.Key.{Hasher, compute_cache_key}
use neu_rust.Prelude.Text.{Str, utf8}
use neu_rust.Routing.Pipeline.{Layer}
use neu_rust.Contracts.{UnifiedRequest, UnifiedResponse, last_user_message}
use neu_rust.Cache.Warming.{DumpFile, CacheWarmer, warm}

-- What the tiers need of the semantic cache.
pub record Semantic (S : Type 0) : Type 0 where
  pub lookup : ℕ → S → Str → S × Option UnifiedResponse
  pub store : ℕ → S → Str → UnifiedResponse → S

pub record TieredCache (S : Type 0) : Type 0 where
  pub exact : ExactCache
  pub semantic : Option S
  pub warmer : Option CacheWarmer

module _ {S : Type 0} (sem : Semantic S) (h : Hasher) where
  -- The second tier, after a miss in the first: a hit is promoted to the first.
  unfoldable pub lookup_semantic :
      ℕ → TieredCache S → UnifiedRequest → ExactCache → TieredCache S × Option UnifiedResponse
  lookup_semantic now t r exact = elim t.semantic [
    | none ↦ (record t { exact = exact }, none)
    | some s ↦
        let (s', answer) = sem.lookup now s (last_user_message r) in
        elim answer [
          | none ↦ (record t { exact = exact; semantic = some s' }, none)
          | some response ↦ (
            record t {
              exact = insert now exact (compute_cache_key h r) response;
              semantic = some s';
            },
            some response,
          )
        ]
  ]

  unfoldable pub lookup :
      ℕ → TieredCache S → UnifiedRequest → TieredCache S × Option UnifiedResponse
  unfolding lookup_semantic
  lookup now t r =
      let (exact, answer) = get now t.exact (compute_cache_key h r) in
      elim answer [
        | some response ↦ (record t { exact = exact }, some response)
        | none ↦ lookup_semantic now t r exact
      ]

  unfoldable pub store : ℕ → TieredCache S → UnifiedRequest → UnifiedResponse → TieredCache S
  store now t r response = record t {
    exact = insert now t.exact (compute_cache_key h r) response;
    semantic = elim t.semantic [
      | none ↦ none
      | some s ↦ some (sem.store now s (last_user_message r) response)
    ];
  }

unfoldable pub warm_tiers : {S : Type 0} → ℕ → TieredCache S → DumpFile → TieredCache S × Option ℕ
warm_tiers now t file = elim t.warmer [
  | none ↦ (t, some 0)
  | some w ↦ let (exact, loaded) = warm now w file t.exact in (record t { exact = exact }, loaded)
]

-- `new` and `with_semantic`.
abbrev pub new_tiered : {S : Type 0} → ExactCache → Option CacheWarmer → TieredCache S
new_tiered exact warmer = record { exact = exact; semantic = none; warmer = warmer }

abbrev pub with_semantic : {S : Type 0} → ExactCache → S → Option CacheWarmer → TieredCache S
with_semantic exact semantic warmer = record {
  exact = exact;
  semantic = some semantic;
  warmer = warmer;
}

-- The cache as a layer of the pipeline: it leaves requests alone and stores the responses.
abbrev pub cache_layer : {S : Type 0} → Semantic S → Hasher → ℕ → Layer (TieredCache S)
cache_layer sem h now = record {
  name = utf8 "tiered-cache";
  on_request = λ r t. (none, r, t);
  on_response = λ r a t. (none, a, store sem h now t r a);
}
