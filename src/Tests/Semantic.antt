-- ===== src/Tests/Semantic.antt =====
-- The semantic cache at concrete inputs.
use neu_rust.Prelude.Maps
use neu_rust.Prelude.Keys.{nat_eq, text_eq}
use neu_rust.Prelude.{
  refl, leb, ltb, max, ◌≡◌, ◌+◌, ◌-◌, ◌*◌, ◌/◌, ◌∷◌, ◌⊎◌, [], none, some, List, length, ℕ, All,
  arith,
}
use neu_rust.Tests.Data.{hello}
use neu_rust.Prelude.Float.{Single}
use neu_rust.Cache.SemanticCache.{
  Embedding, SemanticCache, semantic_lookup, semantic_store, new_semantic, search_entries,
  cosine_similarity, evict_if_needed,
}
use neu_rust.Cache.SemanticCache.Laws.{
  SemanticCall, put, IsPassedOver, ask, Answers, IsStrict, semantic_lookup-Outcome,
}
use neu_rust.Prelude.Text.{utf8}

-- Single precision by whole numbers.
abbrev whole : Single
whole = record {
  F32 = ℕ;
  zero32 = 0;
  one32 = 1;
  epsilon32 = 0;
  of_nat32 = λ n. n;
  of_f64 = λ x. x;
  add32 = λ x y. x + y;
  sub32 = λ x y. x - y;
  mul32 = λ x y. x * y;
  div32 = λ x y. x / y;
  sqrt32 = λ x. 1;
  max32 = max;
  lt32 = ltb;
  le32 = leb;
}

-- A text is embedded as its length; the distance is not computed.
abbrev lengths : Embedding whole
lengths = record { embed = λ t. some (length t ∷ []); cosine = λ a b. none }

abbrev calls : List SemanticCall
calls = put 0 (utf8 "hi") hello ∷ ask 1 (utf8 "ho") ∷ put 2 (utf8 "what") hello ∷ []

abbrev stored : SemanticCache whole
stored = semantic_store whole lengths 0 (new_semantic whole 1 100 1) (utf8 "hi") hello

semantic_lookup-answers : (semantic_lookup whole lengths 1 stored (utf8 "ho")).1 ≡ some hello
unfolding semantic_lookup semantic_store search_entries cosine_similarity evict_if_needed
    Maps.insert
semantic_lookup-answers = refl

whole-IsStrict : IsStrict whole
whole-IsStrict = record {
  irreflexive = λ a. ground arith;
  transitive = λ a b c low high. ground arith;
}

semantic_lookup-Outcome_example :
    (((semantic_lookup whole lengths 1 stored (utf8 "ho")).1 ≡ none)
      × All (IsPassedOver whole lengths 1 (2 ∷ []) stored.similarity_threshold 0) stored.entries)
    ⊎ Answers whole lengths 1
        (2 ∷ [])
        stored.similarity_threshold
        0
        stored.entries
        (semantic_lookup whole lengths 1 stored (utf8 "ho")).1
semantic_lookup-Outcome_example =
    semantic_lookup-Outcome whole lengths whole-IsStrict 1 stored (utf8 "ho") (2 ∷ []) refl
