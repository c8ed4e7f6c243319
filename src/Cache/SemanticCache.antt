-- ===== src/Cache/SemanticCache.antt =====
-- The semantic tier, cache/semantic_cache.rs: the embedding model and the SIMD library are
-- interfaces. The order of the map's iteration is that of the list.
pub mod Laws
use neu_rust.Prelude.{
  true, false, ◌+◌, ◌-◌, ◌%◌, ◌∷◌, ◌&&◌, ◌||◌, ◌==◌, if◌then◌else◌, [], none, some, Bool, List, ℕ,
  Option, filter, ltb, not, length, is_empty,
}
use neu_rust.Prelude.Keys.{nat_eq, text_eq}
use neu_rust.Prelude.Maps
use neu_rust.Contracts.{UnifiedResponse}
use neu_rust.Cache.Tiered.{Semantic}
use neu_rust.Prelude.Float.{Single, F64}
use neu_rust.Prelude.Text.{Str}

-- The model that embeds a text, or fails; and the cosine distance of two vectors, if the library
-- computes it.
pub record Embedding (s : Single) : Type 0 where
  pub embed : Str → Option (List s.F32)
  pub cosine : List s.F32 → List s.F32 → Option F64

pub record SemanticEntry (s : Single) : Type 0 where
  pub embedding : List s.F32
  pub response : UnifiedResponse
  pub hit_count : ℕ
  pub created_at : ℕ
  pub ttl : ℕ

pub record SemanticCache (s : Single) : Type 0 where
  pub entries : List (ℕ × SemanticEntry s)
  pub similarity_threshold : s.F32
  pub max_entries : ℕ
  pub default_ttl : ℕ
  pub next_id : ℕ

module _ (s : Single) where
  abbrev pub new_semantic : ℕ → ℕ → s.F32 → SemanticCache s
  new_semantic max_entries default_ttl similarity_threshold = record {
    entries = [];
    similarity_threshold = similarity_threshold;
    max_entries = max_entries;
    default_ttl = default_ttl;
    next_id = 0;
  }

  abbrev pub is_expired_at : ℕ → SemanticEntry s → Bool
  is_expired_at now e = ltb e.ttl (now - e.created_at)

  abbrev pub zip_with_mul : List s.F32 → List s.F32 → List s.F32
  zip_with_mul [] ys = []
  zip_with_mul (x ∷ xs) [] = []
  zip_with_mul (x ∷ xs) (y ∷ ys) = s.mul32 x y ∷ zip_with_mul xs ys

  abbrev pub sum32 : s.F32 → List s.F32 → s.F32
  sum32 acc [] = acc
  sum32 acc (x ∷ xs) = sum32 (s.add32 acc x) xs

  abbrev pub clamp32 : s.F32 → s.F32
  clamp32 x = if s.lt32 x s.zero32 then s.zero32 else if s.lt32 s.one32 x then s.one32 else x

  abbrev pub norm : List s.F32 → s.F32
  norm a = s.sqrt32 (sum32 s.zero32 (zip_with_mul a a))

  abbrev pub scalar_cosine : List s.F32 → List s.F32 → s.F32
  scalar_cosine a b =
      if s.lt32 (norm a) s.epsilon32 || s.lt32 (norm b) s.epsilon32
      then s.zero32
      else clamp32 (s.div32 (sum32 s.zero32 (zip_with_mul a b)) (s.mul32 (norm a) (norm b)))

  module _ (m : Embedding s) where
    unfoldable pub cosine_similarity : List s.F32 → List s.F32 → s.F32
    cosine_similarity a b =
        if not (length a == length b) || is_empty a then s.zero32 else elim (m.cosine a b) [
          | some distance ↦ s.max32 (s.sub32 s.one32 (s.of_f64 distance)) s.zero32
          | none ↦ scalar_cosine a b
        ]

    -- `score > best_score && score >= similarity_threshold`.
    abbrev pub is_better : (threshold best score : s.F32) → Bool
    is_better threshold best score = s.lt32 best score && s.le32 threshold score

    abbrev pub count_hit : SemanticEntry s → SemanticEntry s
    count_hit e = record e { hit_count = (e.hit_count + 1) % 0x10000000000000000 }

    -- The loop over the entries: the entries after it, the best response so far, and the keys of
    -- those that have expired.
    unfoldable pub search_entries :
        (now : ℕ) (query : List s.F32) (threshold best : s.F32)
        → Option UnifiedResponse
        → List (ℕ × SemanticEntry s)
        → List (ℕ × SemanticEntry s) × (Option UnifiedResponse × List ℕ)
    unfolding cosine_similarity
    search_entries now query threshold best answer [] = ([], (answer, []))
    search_entries now query threshold best answer ((key, e) ∷ entries) =
        elim (is_expired_at now e) [
          | true ↦
              let (rest, (found, expired)) =
                search_entries now query threshold best answer entries in
              ((key, e) ∷ rest, (found, key ∷ expired))
          | false ↦
              let score = cosine_similarity query e.embedding in
              elim (is_better threshold best score) [
                | true ↦
                    let (rest, result) =
                      search_entries now query threshold score (some e.response) entries in
                    ((key, count_hit e) ∷ rest, result)
                | false ↦
                    let (rest, result) = search_entries now query threshold best answer entries in
                    ((key, e) ∷ rest, result)
              ]
        ]

    unfoldable pub semantic_lookup :
        ℕ → SemanticCache s → Str → SemanticCache s × Option UnifiedResponse
    unfolding search_entries
    semantic_lookup now c query = elim (m.embed query) [
      | none ↦ (c, none)
      | some embedding ↦
          let (entries, (answer, expired)) =
            search_entries now embedding c.similarity_threshold s.zero32 none c.entries in
          (record c { entries = Maps.remove_all expired entries }, answer)
    ]

  -- `min_by_key` of the hits: the first of the fewest.
  unfoldable pub fewest_from :
      ℕ × SemanticEntry s → List (ℕ × SemanticEntry s) → ℕ × SemanticEntry s
  fewest_from best [] = best
  fewest_from best (x ∷ xs) =
      fewest_from (if ltb x.1.hit_count best.1.hit_count then x else best) xs

  unfoldable pub evict_victim : List (ℕ × SemanticEntry s) → List (ℕ × SemanticEntry s)
  unfolding fewest_from
  evict_victim [] = []
  evict_victim (x ∷ xs) = Maps.remove (fewest_from x xs).0 (x ∷ xs)

  abbrev pub without_expired : ℕ → List (ℕ × SemanticEntry s) → List (ℕ × SemanticEntry s)
  without_expired now entries =
      Maps.remove_all (Maps.keys (filter (λ e. is_expired_at now e.1) entries)) entries

  unfoldable pub evict_if_needed :
      (now max_entries : ℕ) → List (ℕ × SemanticEntry s) → List (ℕ × SemanticEntry s)
  unfolding evict_victim
  evict_if_needed now max_entries entries =
      if ltb (length entries) max_entries
      then entries
      else if ltb (length (without_expired now entries)) max_entries
      then without_expired now entries
      else evict_victim (without_expired now entries)

  module _ (m : Embedding s) where
    unfoldable pub semantic_store : ℕ → SemanticCache s → Str → UnifiedResponse → SemanticCache s
    unfolding evict_if_needed
    semantic_store now c query response = elim (m.embed query) [
      | none ↦ c
      | some embedding ↦ record c {
        entries =
            Maps.insert c.next_id
              (record {
                embedding = embedding;
                response = response;
                hit_count = 0;
                created_at = now;
                ttl = c.default_ttl;
              })
              (evict_if_needed now c.max_entries c.entries);
        next_id = (c.next_id + 1) % 0x10000000000000000;
      }
    ]

    -- The semantic cache as the second tier.
    abbrev pub semantic_tier : Semantic (SemanticCache s)
    semantic_tier = record { lookup = semantic_lookup m; store = semantic_store }
