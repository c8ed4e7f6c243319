-- ===== src/Cache/SemanticCache/Laws.antt =====
-- The bound of the semantic cache, and what its lookup finds.
use neu_rust.Prelude.{
  true, false, inl, inr, refl, arith, Bool-cases, if◌then◌else◌, ◌≡◌, ◌≤◌, ◌<◌, ◌∷◌, ◌==◌, [], some,
  ℕ, List, In, length, max, ◌⊎◌, suc, Option, filter, if-cases, ltb, ltb→lt, All, ap, and-right,
  none, Option-cases, ◌∙◌, and-left,
}
use neu_rust.Prelude.Keys.{nat_eq, text_eq}
use neu_rust.Prelude.Maps
use neu_rust.Prelude.Float.{Single}
use neu_rust.Cache.SemanticCache.{
  evict_if_needed, evict_victim, fewest_from, SemanticEntry, Embedding, without_expired,
  is_expired_at, is_better, cosine_similarity, search_entries, SemanticCache, semantic_lookup,
  semantic_store, new_semantic,
}
use neu_rust.Contracts.{UnifiedResponse}
use neu_rust.Prelude.Text.{Str}

found_of_In :
    {V : Type 0} (p : ℕ × V) (m : List (ℕ × V)) → In p m → (v : V) × (Maps.lookup p.0 m ≡ some v)
unfolding Maps.lookup
found_of_In p [] h = absurd h
found_of_In p ((j, w) ∷ m) h = elim (Bool-cases (j == p.0)) [
  | inl same ↦ (w, rw same refl)
  | inr other ↦
      rw other (elim h [ inl here ↦ absurd (ground arith) | inr later ↦ found_of_In p m later ])
]

-- The calls of a cache.
pub data SemanticCall : Type 0 where
  ask : ℕ → Str → SemanticCall
  put : ℕ → Str → UnifiedResponse → SemanticCall

-- What is relied on of the comparison of floats, NaN included.
pub record IsStrict (s : Single) : Type 0 where
  pub irreflexive : (a : s.F32) → s.lt32 a a ≡ false
  pub transitive : (a b c : s.F32) → s.lt32 a b ≡ true → s.lt32 b c ≡ true → s.lt32 a c ≡ true

module _ (s : Single) where
  fewest_from-In :
      (b : ℕ × SemanticEntry s) (xs : List (ℕ × SemanticEntry s)) → In (fewest_from s b xs) (b ∷ xs)
  unfolding fewest_from
  fewest_from-In b [] = inl refl
  fewest_from-In b (x ∷ xs) = ground (arith, fewest_from-In b xs, fewest_from-In x xs)

  length-evict_victim :
      (x : ℕ × SemanticEntry s) (xs : List (ℕ × SemanticEntry s))
      → length (evict_victim s (x ∷ xs)) ≤ length xs
  unfolding evict_victim
  length-evict_victim x xs =
      let victim = fewest_from s x xs in
      let (v, found) = found_of_In victim (x ∷ xs) (fewest_from-In x xs) in
      omega (arith, Maps.length-remove-lt victim.0 (x ∷ xs) v found)

  -- Without its least used entry a full map has room for one.
  evict_victim-room :
      (bound : ℕ) (entries : List (ℕ × SemanticEntry s))
      → length entries ≤ max 1 bound
      → length (evict_victim s entries) < max 1 bound
  unfolding evict_victim
  evict_victim-room bound [] h = omega arith
  evict_victim-room bound (x ∷ xs) h = omega (arith, length-evict_victim x xs)

  evict_if_needed-room :
      (now bound : ℕ) (entries : List (ℕ × SemanticEntry s))
      → length entries ≤ max 1 bound
      → length (evict_if_needed s now bound entries) < max 1 bound
  unfolding evict_if_needed
  evict_if_needed-room now bound entries h =
      let live = without_expired s now entries in
      let expired = Maps.keys (filter (λ e. is_expired_at s now e.1) entries) in
      let shorter : length live ≤ length entries = Maps.length-remove_all-le expired entries in
      if-cases {x = entries} {y = if ltb (length live) bound then live else evict_victim s live}
        (λ es. length es < max 1 bound) (ltb (length entries) bound)
        (λ room. omega (arith, ltb→lt (length entries) bound room))
        (λ _.
          if-cases {x = live} {y = evict_victim s live} (λ es. length es < max 1 bound)
            (ltb (length live) bound) (λ room. omega (arith, ltb→lt (length live) bound room))
            (λ _. evict_victim-room bound live (omega arith)))

  module _ (m : Embedding s) where
    length-search_entries :
        (now : ℕ) (query : List s.F32) (threshold best : s.F32) (answer : Option UnifiedResponse)
        (entries : List (ℕ × SemanticEntry s))
        → length (search_entries s m now query threshold best answer entries).0 ≡ length entries
    unfolding search_entries
    length-search_entries now query threshold best answer [] = refl
    length-search_entries now query threshold best answer ((key, e) ∷ entries) =
        elim (Bool-cases (is_expired_at s now e)) [
          | inl expired ↦
              rw (search_entries, expired)
                (ap suc (length-search_entries now query threshold best answer entries))
          | inr live ↦
              let score = cosine_similarity s m query e.embedding in
              elim (Bool-cases (is_better s m threshold best score)) [
                | inl better ↦
                    rw (search_entries, live, better)
                      (ap suc
                        (length-search_entries now query threshold score (some e.response) entries))
                | inr worse ↦
                    rw (search_entries, live, worse)
                      (ap suc (length-search_entries now query threshold best answer entries))
              ]
        ]

    -- An entry that has expired, or whose score is not above another and at the threshold.
    abbrev pub IsPassedOver :
        ℕ → List s.F32 → (threshold best : s.F32) → ℕ × SemanticEntry s → Type 0
    IsPassedOver now query threshold best (key, e) =
        (is_expired_at s now e ≡ true)
        ⊎ (is_better s m threshold best (cosine_similarity s m query e.embedding) ≡ false)

    -- The best entry: alive, with a score at the threshold and above `best`, and no entry that is
    -- alive and at the threshold has a higher one; its response is the answer.
    pub record Answers (now : ℕ) (query : List s.F32) (threshold best : s.F32)
        (entries : List (ℕ × SemanticEntry s)) (answer : Option UnifiedResponse) : Type 0 where
      pub entry : ℕ × SemanticEntry s
      pub member : In entry entries
      pub live : is_expired_at s now entry.1 ≡ false
      pub qualifies : s.le32 threshold (cosine_similarity s m query entry.1.embedding) ≡ true
      pub above : s.lt32 best (cosine_similarity s m query entry.1.embedding) ≡ true
      pub answers : answer ≡ some entry.1.response
      pub highest :
          All
            (IsPassedOver now query threshold (cosine_similarity s m query entry.1.embedding))
            entries

    module _ (strict : IsStrict s) where
      -- What does not beat one score does not beat a higher one.
      not_better :
          (threshold best higher score : s.F32)
          → s.lt32 best higher ≡ true
          → is_better s m threshold best score ≡ false
          → is_better s m threshold higher score ≡ false
      not_better threshold best higher score up worse = elim (Bool-cases (s.lt32 higher score)) [
        | inl beats ↦
            let also : s.lt32 best score ≡ true = strict.transitive best higher score up beats in
            ground arith
        | inr below ↦ ground arith
      ]

      -- A score does not beat a higher one.
      lower_not_better :
          (threshold score higher : s.F32)
          → s.lt32 score higher ≡ true
          → is_better s m threshold higher score ≡ false
      lower_not_better threshold score higher up = elim (Bool-cases (s.lt32 higher score)) [
        | inl beats ↦
            let itself : s.lt32 score score ≡ true =
              strict.transitive score higher score up beats in
            absurd (ground (arith, strict.irreflexive score))
        | inr below ↦ ground arith
      ]

      -- The best of the entries behind one that it beats, over what is below its score.
      later :
          (now : ℕ) (query : List s.F32) (threshold low best : s.F32) (x : ℕ × SemanticEntry s)
          (entries : List (ℕ × SemanticEntry s)) (answer : Option UnifiedResponse)
          → (v : Answers now query threshold low entries answer)
          → s.lt32 best (cosine_similarity s m query v.entry.1.embedding) ≡ true
          → IsPassedOver now query threshold (cosine_similarity s m query v.entry.1.embedding) x
          → Answers now query threshold best (x ∷ entries) answer
      later now query threshold low best x entries answer v up passed = record {
        entry = v.entry;
        member = inr v.member;
        live = v.live;
        qualifies = v.qualifies;
        above = up;
        answers = v.answers;
        highest = (passed, v.highest);
      }

      search_entries-Outcome :
          (now : ℕ) (query : List s.F32) (threshold best : s.F32) (answer : Option UnifiedResponse)
          (entries : List (ℕ × SemanticEntry s))
          → (((search_entries s m now query threshold best answer entries).1.0 ≡ answer)
              × All (IsPassedOver now query threshold best) entries)
            ⊎ Answers now query threshold best entries
                (search_entries s m now query threshold best answer entries).1.0
      unfolding search_entries
      search_entries-Outcome now query threshold best answer [] = inl (refl, tt)
      search_entries-Outcome now query threshold best answer ((key, e) ∷ entries) =
          elim (Bool-cases (is_expired_at s now e)) [
            | inl expired ↦
                rw (search_entries, expired)
                  (elim (search_entries-Outcome now query threshold best answer entries) [
                    | inl (same, passed) ↦ inl (same, (inl refl, passed))
                    | inr v ↦ inr (
                        later now query threshold best best (key, e) entries _ v v.above
                          (inl expired))
                  ])
            | inr live ↦
                let score = cosine_similarity s m query e.embedding in
                elim (Bool-cases (is_better s m threshold best score)) [
                  | inl better ↦
                      let up : s.lt32 best score ≡ true = and-left _ _ better in
                      rw (search_entries, live, better)
                        (elim (search_entries-Outcome now query threshold score (some e.response)
                          entries) [
                            | inl (same, passed) ↦ inr (record {
                              entry = (key, e);
                              member = inl refl;
                              live = live;
                              qualifies = and-right (s.lt32 best score) _ better;
                              above = up;
                              answers = same;
                              highest = (inr (ground (arith, strict.irreflexive score)), passed);
                            })
                            | inr v ↦
                                let higher = cosine_similarity s m query v.entry.1.embedding in
                                inr (
                                  later now query threshold score best (key, e) entries _ v
                                    (strict.transitive best score higher up v.above)
                                    (inr (lower_not_better threshold score higher v.above)))
                          ])
                  | inr worse ↦
                      rw (search_entries, live, worse)
                        (elim (search_entries-Outcome now query threshold best answer entries) [
                          | inl (same, passed) ↦ inl (same, (inr refl, passed))
                          | inr v ↦
                              let higher = cosine_similarity s m query v.entry.1.embedding in
                              inr (
                                later now query threshold best best (key, e) entries _ v v.above
                                  (inr (not_better threshold best higher score v.above worse)))
                        ])
                ]
          ]

      -- What a lookup of a query answers, if the query can be embedded: nothing, and then every
      -- entry has expired or has a score that is not positive or below the threshold; or the
      -- response of the best entry, which has not expired and has a positive score at or above the
      -- threshold, while no other such entry has a higher one.
      pub semantic_lookup-Outcome :
          (now : ℕ) (c : SemanticCache s) (query : Str) (q : List s.F32)
          → m.embed query ≡ some q
          → (((semantic_lookup s m now c query).1 ≡ none)
              × All (IsPassedOver now q c.similarity_threshold s.zero32) c.entries)
            ⊎ Answers now q c.similarity_threshold s.zero32 c.entries
                (semantic_lookup s m now c query).1
      unfolding semantic_lookup
      semantic_lookup-Outcome now c query q embeds =
          rw (semantic_lookup, embeds)
            (search_entries-Outcome now q c.similarity_threshold s.zero32 none c.entries)

    abbrev FitsBound : SemanticCache s → Type 0
    FitsBound c = length c.entries ≤ max 1 c.max_entries

    semantic_store-FitsBound :
        (now : ℕ) (c : SemanticCache s) (query : Str) (response : UnifiedResponse)
        → FitsBound c
        → FitsBound (semantic_store s m now c query response)
    unfolding semantic_store
    semantic_store-FitsBound now c query response h = elim (Option-cases (m.embed query)) [
      | inl fails ↦ rw (semantic_store, fails) h
      | inr (q, embeds) ↦
          let entries = evict_if_needed s now c.max_entries c.entries in
          let e : SemanticEntry s = record {
            embedding = q;
            response = response;
            hit_count = 0;
            created_at = now;
            ttl = c.default_ttl;
          } in
          rw (semantic_store, embeds)
            (omega (
              arith,
              Maps.length-insert-le c.next_id e entries,
              evict_if_needed-room now c.max_entries c.entries h,
            ))
    ]

    semantic_lookup-FitsBound :
        (now : ℕ) (c : SemanticCache s) (query : Str)
        → FitsBound c
        → FitsBound (semantic_lookup s m now c query).0
    unfolding semantic_lookup
    semantic_lookup-FitsBound now c query h = elim (Option-cases (m.embed query)) [
      | inl fails ↦ rw (semantic_lookup, fails) h
      | inr (q, embeds) ↦
          let (entries, (answer, expired)) =
            search_entries s m now q c.similarity_threshold s.zero32 none c.entries in
          rw (semantic_lookup, embeds)
            (omega (
              arith,
              Maps.length-remove_all-le expired entries,
              length-search_entries now q c.similarity_threshold s.zero32 none c.entries,
            ))
    ]

    abbrev pub semantic_run : List SemanticCall → SemanticCache s → SemanticCache s
    semantic_run [] c = c
    semantic_run (ask now query ∷ calls) c = semantic_run calls (semantic_lookup s m now c query).0
    semantic_run (put now query response ∷ calls) c =
        semantic_run calls (semantic_store s m now c query response)

    semantic_run-FitsBound :
        (calls : List SemanticCall) (c : SemanticCache s)
        → FitsBound c
        → FitsBound (semantic_run calls c)
    semantic_run-FitsBound [] c h = h
    semantic_run-FitsBound (ask now query ∷ calls) c h =
        semantic_run-FitsBound calls (semantic_lookup s m now c query).0
          (semantic_lookup-FitsBound now c query h)
    semantic_run-FitsBound (put now query response ∷ calls) c h =
        semantic_run-FitsBound calls (semantic_store s m now c query response)
          (semantic_store-FitsBound now c query response h)

    lookup_keeps_limit :
        (now : ℕ) (c : SemanticCache s) (query : Str)
        → (semantic_lookup s m now c query).0.max_entries ≡ c.max_entries
    unfolding semantic_lookup
    lookup_keeps_limit now c query = elim (Option-cases (m.embed query)) [
      | inl fails ↦ rw (semantic_lookup, fails) refl
      | inr (q, embeds) ↦ rw (semantic_lookup, embeds) refl
    ]

    store_keeps_limit :
        (now : ℕ) (c : SemanticCache s) (query : Str) (response : UnifiedResponse)
        → (semantic_store s m now c query response).max_entries ≡ c.max_entries
    unfolding semantic_store
    store_keeps_limit now c query response = elim (Option-cases (m.embed query)) [
      | inl fails ↦ rw (semantic_store, fails) refl
      | inr (q, embeds) ↦ rw (semantic_store, embeds) refl
    ]

    run_keeps_limit :
        (calls : List SemanticCall) (c : SemanticCache s)
        → (semantic_run calls c).max_entries ≡ c.max_entries
    run_keeps_limit [] c = refl
    run_keeps_limit (ask now query ∷ calls) c =
        run_keeps_limit calls (semantic_lookup s m now c query).0 ∙ lookup_keeps_limit now c query
    run_keeps_limit (put now query response ∷ calls) c =
        run_keeps_limit calls (semantic_store s m now c query response)
        ∙ store_keeps_limit now c query response

    -- Whatever calls are made of a new semantic cache, it holds at most `max_entries` entries, or
    -- one if that is zero.
    pub semantic_run-length :
        (max_entries default_ttl : ℕ) (threshold : s.F32) (calls : List SemanticCall)
        → length (semantic_run calls (new_semantic s max_entries default_ttl threshold)).entries
          ≤ max 1 max_entries
    semantic_run-length max_entries default_ttl threshold calls =
        let c = new_semantic s max_entries default_ttl threshold in
        rw (run_keeps_limit calls c) at (semantic_run-FitsBound calls c (omega arith))
