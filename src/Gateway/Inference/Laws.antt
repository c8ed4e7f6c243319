-- ===== src/Gateway/Inference/Laws.antt =====
-- What a call of the endpoint changes, by its reply.
use neu_rust.Prelude.{
  ◌≡◌, ◌+◌, ◌∷◌, ◌++◌, ◌⊎◌, [], none, some, List, Option, refl, inl, inr, ap, Option-cases, false,
  get_or, true, Bool, if-cases, length,
}
use neu_rust.Prelude.Keys.{nat_eq, text_eq}
use neu_rust.Gateway.Inference.{
  completion, validate, Clock, handle_complete, start_stream, ChatCompletionRequest, Gateway,
  ChatCompletionResponse, Reply, cache_hit, to_unified_request, wrap64, invalid_request,
  unknown_model, completion_error, streaming, to_reply, cost_event, streaming_error,
  completed_event, chat_completions, serve, lookup_in, answer, store_in, recorded_cost, lost_cost,
}
use neu_rust.Cache.Tiered.{Semantic, TieredCache}
use neu_rust.Cache.Key.{Hasher}
use neu_rust.Routing.Provider.{ProviderConfig, Provider, ok, Result, err}
use neu_rust.Prelude.Text.{utf8, Str}
use neu_rust.Contracts.{UnifiedResponse, StreamChunk, CostEvent}
use neu_rust.Gateway.State.{find_provider}

pub Result-cases : {A : Type 0} (r : Result A) → ((a : A) × (r ≡ ok a)) ⊎ ((e : Str) × (r ≡ err e))
Result-cases (ok a) = inl (a, refl)
Result-cases (err e) = inr (e, refl)

-- Each cost is recorded or lost.
pub length-recorded_cost :
    (b : Bool) (e : CostEvent) → length (recorded_cost b e) + length (lost_cost b e) ≡ 1
length-recorded_cost true e = refl
length-recorded_cost false e = refl

stream_model : (q : ChatCompletionRequest) → (to_unified_request q).model.model_name ≡ q.model
unfolding to_unified_request
stream_model q = refl

module _ {S C : Type 0} (sem : Semantic C) (h : Hasher) (configs : List ProviderConfig) where
  module _ (c : Clock) (providers : List (Provider S)) (q : ChatCompletionRequest) where
    -- A request that passes the checks, for a model that a provider is found for.
    abbrev Chosen : Provider S → Type 0
    Chosen p = (validate q ≡ none) × (find_provider configs providers q.model ≡ some p)

    abbrev Streams : Bool → Type 0
    Streams b = get_or q.stream false ≡ b

    -- The cache after the lookup of the request, and what that found.
    abbrev looked_up : Gateway S C → Option (TieredCache C) × Option UnifiedResponse
    looked_up g = lookup_in sem h c.now g.cache (to_unified_request q)

    -- The answer of the cache: no provider is asked, no cost is recorded.
    abbrev FromCache : Gateway S C → Gateway S C → ChatCompletionResponse → Type 0
    FromCache g g' reply =
        (p : Provider S) × (a : UnifiedResponse) × Chosen p
        × Streams false
        × ((looked_up g).1 ≡ some a)
        × (reply ≡ to_reply a)
        × (g' ≡ record g {
          cache = (looked_up g).0;
          events = g.events ++ cache_hit c.now_ms (utf8 "tiered") q.model ∷ [];
        })

    -- The answer of the provider that was chosen, after a miss: it is stored in the cache; one cost,
    -- which is recorded or lost, and one event.
    abbrev Completed : Gateway S C → Gateway S C → ChatCompletionResponse → Type 0
    Completed g g' reply =
        (p : Provider S) × (a : UnifiedResponse) × (world : S) × Chosen p
        × Streams false
        × ((looked_up g).1 ≡ none)
        × (p.complete (to_unified_request q) g.world ≡ (ok a, world))
        × (reply ≡ to_reply a)
        × (g' ≡ record g {
          cache = store_in sem h c.now (looked_up g).0 (to_unified_request q) a;
          costs = g.costs ++ recorded_cost c.recorded (cost_event c.now_ms a);
          lost = g.lost ++ lost_cost c.recorded (cost_event c.now_ms a);
          events = g.events ++ completed_event c.now_ms a ∷ [];
          world = world;
        })

    -- The error of the provider that was chosen, after a miss: nothing is stored, one error more.
    abbrev Failed : Gateway S C → Gateway S C → Str → Type 0
    Failed g g' e =
        (p : Provider S) × (world : S) × Chosen p
        × Streams false
        × ((looked_up g).1 ≡ none)
        × (p.complete (to_unified_request q) g.world ≡ (err e, world))
        × (g' ≡ record g {
          cache = (looked_up g).0;
          error_count = wrap64 (g.error_count + 1);
          world = world;
        })

    -- The cache is not asked for a stream.
    abbrev StreamFailed : Gateway S C → Gateway S C → Str → Type 0
    StreamFailed g g' e =
        (p : Provider S) × (world : S) × Chosen p
        × Streams true
        × (p.complete_stream (to_unified_request q) g.world ≡ (err e, world))
        × (g' ≡ record g { error_count = wrap64 (g.error_count + 1); world = world })

    -- The stream of the provider that was chosen; nothing else changes.
    abbrev Streamed : Gateway S C → Gateway S C → Str → List (Result StreamChunk) → Type 0
    Streamed g g' model chunks =
        (p : Provider S) × (world : S) × Chosen p
        × Streams true
        × (model ≡ q.model)
        × (p.complete_stream (to_unified_request q) g.world ≡ (ok chunks, world))
        × (g' ≡ record g { world = world })

    -- What the reply says of the gateway before and after.
    abbrev pub Effect : Gateway S C → Reply → Gateway S C → Type 0
    Effect g (invalid_request e) g' = (validate q ≡ some e) × (g' ≡ g)
    Effect g (unknown_model m) g' =
        (m ≡ q.model)
        × (validate q ≡ none)
        × (find_provider configs providers q.model ≡ none)
        × (g' ≡ g)
    Effect g (completion reply) g' = FromCache g g' reply ⊎ Completed g g' reply
    Effect g (completion_error e) g' = Failed g g' e
    Effect g (streaming m chunks) g' = Streamed g g' m chunks
    Effect g (streaming_error e) g' = StreamFailed g g' e

  handle_complete-Effect :
      (c : Clock) (providers : List (Provider S)) (q : ChatCompletionRequest) (p : Provider S)
      (g : Gateway S C)
      → Chosen c providers q p
      → get_or q.stream false ≡ false
      → (looked_up c providers q g).1 ≡ none
      → let out =
          handle_complete sem h configs c p
            (to_unified_request q)
            (record g { cache = (looked_up c providers q g).0 }) in
        Effect c providers q g out.0 out.1
  unfolding handle_complete
  handle_complete-Effect c providers q p g chosen whole missed =
      let outcome = p.complete (to_unified_request q) g.world in
      elim (Result-cases outcome.0) [
        | inl (a, answered) ↦
            rw (handle_complete, answered)
              (inr (
                p,
                a,
                outcome.1,
                chosen,
                whole,
                missed,
                ap (λ x. (x, outcome.1)) answered,
                refl,
                refl,
              ))
        | inr (e, failed) ↦
            rw (handle_complete, failed)
              (p, outcome.1, chosen, whole, missed, ap (λ x. (x, outcome.1)) failed, refl)
      ]

  start_stream-Effect :
      (c : Clock) (providers : List (Provider S)) (q : ChatCompletionRequest) (p : Provider S)
      (g : Gateway S C)
      → Chosen c providers q p
      → get_or q.stream false ≡ true
      → let out = start_stream sem h configs p (to_unified_request q) g in
        Effect c providers q g out.0 out.1
  unfolding start_stream
  start_stream-Effect c providers q p g chosen streams =
      let outcome = p.complete_stream (to_unified_request q) g.world in
      elim (Result-cases outcome.0) [
        | inl (chunks, answered) ↦
            rw (start_stream, answered)
              (
                p,
                outcome.1,
                chosen,
                streams,
                stream_model q,
                ap (λ x. (x, outcome.1)) answered,
                refl,
              )
        | inr (e, failed) ↦
            rw (start_stream, failed)
              (p, outcome.1, chosen, streams, ap (λ x. (x, outcome.1)) failed, refl)
      ]

  answer-Effect :
      (c : Clock) (providers : List (Provider S)) (q : ChatCompletionRequest) (p : Provider S)
      (g : Gateway S C)
      → Chosen c providers q p
      → get_or q.stream false ≡ false
      → let out = answer sem h configs c p q g (looked_up c providers q g) in
        Effect c providers q g out.0 out.1
  unfolding answer
  answer-Effect c providers q p g chosen whole = elim (Option-cases (looked_up c providers q g).1) [
    | inl missed ↦
        rw (answer, missed) (handle_complete-Effect c providers q p g chosen whole missed)
    | inr (a, hit) ↦ rw (answer, hit) (inl (p, a, chosen, whole, hit, refl, refl))
  ]

  serve-Effect :
      (c : Clock) (providers : List (Provider S)) (q : ChatCompletionRequest) (p : Provider S)
      (g : Gateway S C)
      → Chosen c providers q p
      → let out = serve sem h configs c p q g in Effect c providers q g out.0 out.1
  unfolding serve
  serve-Effect c providers q p g chosen =
      if-cases {A = Reply × Gateway S C} (λ o. Effect c providers q g o.0 o.1)
        (get_or q.stream false) (start_stream-Effect c providers q p g chosen)
        (answer-Effect c providers q p g chosen)

  -- What the reply of a call says of the gateway after it, all of whose parts are given, and which
  -- has counted the request: an invalid request or an unknown model changes nothing more. Without
  -- the flag for a stream, a completion either is what the cache finds, with one event and no
  -- provider asked, or after a miss is the answer of the provider that was chosen, which is stored
  -- in the cache and gives one event and one cost, recorded or, if the event store fails, lost; a
  -- failure of that provider counts one error and stores nothing. With the flag, the reply is the
  -- stream of the provider, or its failure, which counts one error, and the cache is not asked.
  pub chat_completions-Effect :
      (c : Clock) (providers : List (Provider S)) (q : ChatCompletionRequest) (g : Gateway S C)
      → let out = chat_completions sem h configs c providers q g in
        Effect c providers q (record g { request_count = wrap64 (g.request_count + 1) }) out.0 out.1
  unfolding chat_completions
  chat_completions-Effect c providers q g = elim (Option-cases (validate q)) [
    | inr (e, refused) ↦ rw (chat_completions, refused) (refused, refl)
    | inl valid ↦
        rw (chat_completions, valid)
          (elim (Option-cases (find_provider configs providers q.model)) [
            | inl unknown ↦ rw (chat_completions, unknown) (refl, valid, unknown, refl)
            | inr (p, found) ↦
                rw (chat_completions, found)
                  (serve-Effect c providers q p
                    (record g { request_count = wrap64 (g.request_count + 1) }) (valid, found))
          ])
  ]
