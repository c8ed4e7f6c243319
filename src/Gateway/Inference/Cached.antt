-- ===== src/Gateway/Inference/Cached.antt =====
-- A request asked again: the answer comes from the cache.
use neu_rust.Prelude.{
  ◌≡◌, ◌≤◌, ◌+◌, ◌-◌, ◌∷◌, ◌++◌, [], refl, false, none, some, List, ◌∙◌, if◌then◌else◌, true, Bool,
  get_or, Option, ℕ, ap,
}
use neu_rust.Prelude.Keys.{nat_eq, text_eq}
use neu_rust.Routing.Provider.{ok, ProviderConfig, Provider}
use neu_rust.Gateway.Inference.{
  answer, settle, Clock, chat_completions, ChatCompletionRequest, serve, Gateway, handle_complete,
  validate, to_unified_request, completion, to_reply, wrap64, cache_hit, completed_event,
  cost_event, lookup_in, store_in, recorded_cost, lost_cost,
}
use neu_rust.Cache.Tiered.{lookup, store, Semantic, TieredCache}
use neu_rust.Cache.Key.{Hasher}
use neu_rust.Contracts.{UnifiedResponse, UnifiedRequest}
use neu_rust.Gateway.State.{find_provider}
use neu_rust.Prelude.Text.{utf8}
use neu_rust.Cache.Tiered.Laws.{lookup-store, lookup-default_ttl}

if_of_false : {A : Type 0} {y : A} (x : A) (b : Bool) → b ≡ false → (if b then x else y) ≡ y
if_of_false x true h = absurd (cc h)
if_of_false x false h = refl

module _ {C : Type 0} (sem : Semantic C) (h : Hasher) where
  looked_up :
      (now : ℕ) (cache : Option (TieredCache C)) (t : TieredCache C) (r : UnifiedRequest)
      (answer : Option UnifiedResponse)
      → cache ≡ some t
      → (lookup sem h now t r).1 ≡ answer
      → lookup_in sem h now cache r ≡ (some (lookup sem h now t r).0, answer)
  looked_up now cache t r answer cached found =
      ap (λ o. lookup_in sem h now o r) cached ∙ ap (λ x. (some (lookup sem h now t r).0, x)) found

module _ {S C : Type 0} (sem : Semantic C) (h : Hasher) (configs : List ProviderConfig) where
  -- A request for a whole completion that passes the checks, and its provider.
  abbrev pub Served : List (Provider S) → ChatCompletionRequest → Provider S → Type 0
  Served providers q p =
      (validate q ≡ none)
      × (get_or q.stream false ≡ false)
      × (find_provider configs providers q.model ≡ some p)

  chat_completions_served :
      (c : Clock) (providers : List (Provider S)) (q : ChatCompletionRequest) (g : Gateway S C)
      (p : Provider S)
      → validate q ≡ none
      → find_provider configs providers q.model ≡ some p
      → chat_completions sem h configs c providers q g
        ≡ serve sem h configs c p q (record g { request_count = wrap64 (g.request_count + 1) })
  unfolding chat_completions
  chat_completions_served c providers q g p valid found = rw (chat_completions, valid, found) refl

  abbrev counted : Gateway S C → Gateway S C
  counted g = record g { request_count = wrap64 (g.request_count + 1) }

  chat_completions_hit :
      (c : Clock) (providers : List (Provider S)) (q : ChatCompletionRequest) (g : Gateway S C)
      (cache' : Option (TieredCache C)) (p : Provider S) (a : UnifiedResponse)
      → Served providers q p
      → lookup_in sem h c.now g.cache (to_unified_request q) ≡ (cache', some a)
      → chat_completions sem h configs c providers q g ≡ (
        completion (to_reply a),
        record g {
          request_count = wrap64 (g.request_count + 1);
          cache = cache';
          events = g.events ++ cache_hit c.now_ms (utf8 "tiered") q.model ∷ [];
        },
      )
  unfolding serve answer
  chat_completions_hit c providers q g cache' p a (valid, whole, found) hit =
      chat_completions_served c providers q g p valid found
      ∙ (if_of_false _ (get_or q.stream false) whole
          ∙ ap (answer sem h configs c p q (counted g)) hit)

  chat_completions_miss :
      (c : Clock) (providers : List (Provider S)) (q : ChatCompletionRequest) (g : Gateway S C)
      (cache' : Option (TieredCache C)) (p : Provider S) (a : UnifiedResponse) (w : S)
      → Served providers q p
      → lookup_in sem h c.now g.cache (to_unified_request q) ≡ (cache', none)
      → p.complete (to_unified_request q) g.world ≡ (ok a, w)
      → chat_completions sem h configs c providers q g ≡ (
        completion (to_reply a),
        record g {
          request_count = wrap64 (g.request_count + 1);
          cache = store_in sem h c.now cache' (to_unified_request q) a;
          events = g.events ++ completed_event c.now_ms a ∷ [];
          costs = g.costs ++ recorded_cost c.recorded (cost_event c.now_ms a);
          lost = g.lost ++ lost_cost c.recorded (cost_event c.now_ms a);
          world = w;
        },
      )
  unfolding serve answer handle_complete
  chat_completions_miss c providers q g cache' p a w (valid, whole, found) missed answered =
      chat_completions_served c providers q g p valid found
      ∙ (if_of_false _ (get_or q.stream false) whole
          ∙ (ap (answer sem h configs c p q (counted g)) missed
              ∙ ap
                  (settle sem h configs c (to_unified_request q)
                    (record (counted g) { cache = cache' }))
                  answered))

  -- A request for a whole completion that misses the cache and that its provider answers is answered
  -- again, within the default time to live of the cache, with the same reply and without another
  -- call of a provider: the world behind the providers and the costs stay as they are.
  pub chat_completions_again :
      (first again : Clock) (providers : List (Provider S)) (q : ChatCompletionRequest)
      (g : Gateway S C) (t : TieredCache C) (p : Provider S) (a : UnifiedResponse) (w : S)
      → Served providers q p
      → g.cache ≡ some t
      → (lookup sem h first.now t (to_unified_request q)).1 ≡ none
      → p.complete (to_unified_request q) g.world ≡ (ok a, w)
      → again.now - first.now ≤ t.exact.default_ttl
      → let (reply, g') = chat_completions sem h configs first providers q g in
        let (reply', g'') = chat_completions sem h configs again providers q g' in
        (reply ≡ completion (to_reply a))
        × (reply' ≡ completion (to_reply a))
        × (g''.world ≡ w)
        × (g''.costs ≡ g'.costs)
  chat_completions_again first again providers q g t p a w served cached missed answered fresh =
      let r = to_unified_request q in
      let t' = (lookup sem h first.now t r).0 in
      let g' : Gateway S C = record g {
        request_count = wrap64 (g.request_count + 1);
        cache = some (store sem h first.now t' r a);
        events = g.events ++ completed_event first.now_ms a ∷ [];
        costs = g.costs ++ recorded_cost first.recorded (cost_event first.now_ms a);
        lost = g.lost ++ lost_cost first.recorded (cost_event first.now_ms a);
        world = w;
      } in
      let kept =
        lookup-store sem h first.now again.now t' r r a
          (rw (lookup-default_ttl sem h first.now t r) fresh) refl in
      let once =
        chat_completions_miss first providers q g (some t') p a w served
          (looked_up sem h first.now g.cache t r none cached missed) answered in
      let again_hit =
        chat_completions_hit again providers q g'
          (some (lookup sem h again.now (store sem h first.now t' r a) r).0) p a served
          (looked_up sem h again.now g'.cache (store sem h first.now t' r a) r (some a) refl
            kept) in
      rw (once, again_hit) (refl, refl, refl, refl)
