-- ===== src/Gateway/Server/Counts.antt =====
-- The counters of the server over many requests.
use neu_rust.Prelude.{
  ◌≡◌, ◌≤◌, ◌+◌, ◌∷◌, [], none, some, false, refl, arith, inl, inr, List, Option, length,
  Option-cases, if-both, length-append, get_or, if◌then◌else◌, true, ◌<◌, ℕ,
}
use neu_rust.Prelude.Keys.{nat_eq, text_eq}
use neu_rust.Gateway.Inference.{
  chat_completions, serve, answer, handle_complete, start_stream, Gateway, Clock,
  ChatCompletionRequest, wrap64, settle, completed_event, cost_event, cache_hit, to_unified_request,
  lookup_in, validate, Reply, recorded_cost,
}
use neu_rust.Gateway.Inference.Laws.{Result-cases, length-recorded_cost}
use neu_rust.Contracts.{UnifiedRequest, UnifiedResponse}
use neu_rust.Gateway.State.{find_provider}
use neu_rust.Prelude.Text.{utf8}
use neu_rust.Routing.Provider.{Provider, ProviderConfig, Result, ok, err}
use neu_rust.Cache.Tiered.{Semantic, TieredCache}
use neu_rust.Cache.Key.{Hasher}
use neu_rust.Gateway.Server.{
  Setup, ServerRequest, handle, routed, Endpoint, api_routes, live_probe, ready_probe, metrics_page,
  model_list, chat, Arrival, serve_all, respond,
}
use neu_rust.Gateway.Server.Guarded.{
  is_chat_call, route_missing, Verdict-cases, is_chat, asks_chat, route_found,
}
use neu_rust.Gateway.Auth.Laws.{is_pass}
use neu_rust.Gateway.Auth.{auth_middleware}

-- Errors and events are together no more than the requests counted, and costs no more than events.
pub record IsConsistent {S C : Type 0} (g : Gateway S C) : Type 0 where
  pub outcomes : g.error_count + length g.events ≤ g.request_count
  pub billed : length g.costs ≤ length g.events

-- One error or one event more at most, and no cost without an event.
record AtMostOne {S C : Type 0} (g g' : Gateway S C) : Type 0 where
  counted : g'.request_count ≡ g.request_count
  outcome : g'.error_count + length g'.events ≤ g.error_count + length g.events + 1
  paid : length g'.costs + length g.events ≤ length g.costs + length g'.events

module _ {S C : Type 0} (sem : Semantic C) (h : Hasher) (configs : List ProviderConfig) where
  settle-AtMostOne :
      (c : Clock) (r : UnifiedRequest) (g : Gateway S C) (o : Result UnifiedResponse × S)
      → AtMostOne g (settle sem h configs c r g o).1
  settle-AtMostOne c r g (ok a, world) = record {
    counted = refl;
    outcome = omega (arith, length-append g.events (completed_event c.now_ms a ∷ []));
    paid = omega (
      arith,
      length-append g.events (completed_event c.now_ms a ∷ []),
      length-append g.costs (recorded_cost c.recorded (cost_event c.now_ms a)),
      length-recorded_cost c.recorded (cost_event c.now_ms a),
    );
  }
  settle-AtMostOne c r g (err e, world) = record {
    counted = refl;
    outcome = omega arith;
    paid = omega arith;
  }

  start_stream-AtMostOne :
      (p : Provider S) (r : UnifiedRequest) (g : Gateway S C)
      → AtMostOne g (start_stream sem h configs p r g).1
  unfolding start_stream
  start_stream-AtMostOne p r g = elim (Result-cases (p.complete_stream r g.world).0) [
    | inl (chunks, answered) ↦
        rw (start_stream, answered)
          (record { counted = refl; outcome = omega arith; paid = omega arith })
    | inr (e, failed) ↦
        rw (start_stream, failed)
          (record { counted = refl; outcome = omega arith; paid = omega arith })
  ]

  answer-AtMostOne :
      (c : Clock) (p : Provider S) (q : ChatCompletionRequest) (g : Gateway S C)
      (looked : Option (TieredCache C) × Option UnifiedResponse)
      → AtMostOne g (answer sem h configs c p q g looked).1
  unfolding answer handle_complete
  answer-AtMostOne c p q g (cache', none) =
      let v =
        settle-AtMostOne c (to_unified_request q) (record g { cache = cache' })
          (p.complete (to_unified_request q) g.world) in
      record { counted = v.counted; outcome = v.outcome; paid = v.paid }
  answer-AtMostOne c p q g (cache', some a) = record {
    counted = refl;
    outcome =
        omega (arith, length-append g.events (cache_hit c.now_ms (utf8 "tiered") q.model ∷ []));
    paid = omega (arith, length-append g.events (cache_hit c.now_ms (utf8 "tiered") q.model ∷ []));
  }

  serve-AtMostOne :
      (c : Clock) (p : Provider S) (q : ChatCompletionRequest) (g : Gateway S C)
      → AtMostOne g (serve sem h configs c p q g).1
  unfolding serve
  serve-AtMostOne c p q g =
      if-both {A = Reply × Gateway S C} (λ o. AtMostOne g o.1) (get_or q.stream false)
        (start_stream-AtMostOne p (to_unified_request q) g)
        (answer-AtMostOne c p q g (lookup_in sem h c.now g.cache (to_unified_request q)))

  chat_completions-AtMostOne :
      (c : Clock) (ps : List (Provider S)) (q : ChatCompletionRequest) (g : Gateway S C)
      → AtMostOne
          (record g { request_count = wrap64 (g.request_count + 1) })
          (chat_completions sem h configs c ps q g).1
  unfolding chat_completions
  chat_completions-AtMostOne c ps q g = elim (Option-cases (validate q)) [
    | inr (e, refused) ↦
        rw (chat_completions, refused)
          (record { counted = refl; outcome = omega arith; paid = omega arith })
    | inl valid ↦
        rw (chat_completions, valid)
          (elim (Option-cases (find_provider configs ps q.model)) [
            | inl unknown ↦
                rw (chat_completions, unknown)
                  (record { counted = refl; outcome = omega arith; paid = omega arith })
            | inr (p, found) ↦
                rw (chat_completions, found)
                  (serve-AtMostOne c p q
                    (record g { request_count = wrap64 (g.request_count + 1) }))
          ])
  ]

module _ {S C : Type 0} (setup : Setup S C) where
  -- What one request adds to the counters.
  record Served (q : ServerRequest) (g g' : Gateway S C) : Type 0 where
    counted :
        g'.request_count
        ≡ (if is_chat_call setup q then wrap64 (g.request_count + 1) else g.request_count)
    outcome :
        g'.error_count + length g'.events
        ≤ g.error_count + length g.events + (if is_chat_call setup q then 1 else 0)
    paid : length g'.costs + length g.events ≤ length g.costs + length g'.events

  unchanged-Served :
      (q : ServerRequest) (g : Gateway S C) (world : S)
      → is_chat_call setup q ≡ false
      → Served q g (record g { world = world })
  unchanged-Served q g world e = record {
    counted = rw e refl;
    outcome = omega arith;
    paid = omega arith;
  }

  handle-Served :
      (c : Clock) (e : Endpoint) (q : ServerRequest) (g : Gateway S C)
      → is_pass (auth_middleware setup.api_keys q.headers) ≡ true
      → is_chat e ≡ asks_chat q
      → Served q g (handle setup c e q g).1
  unfolding handle
  handle-Served c live_probe q g through e = unchanged-Served q g g.world (ground arith)
  handle-Served c ready_probe q g through e = unchanged-Served q g _ (ground arith)
  handle-Served c metrics_page q g through e = unchanged-Served q g g.world (ground arith)
  handle-Served c model_list q g through e = unchanged-Served q g g.world (ground arith)
  handle-Served c chat q g through e = elim (Option-cases (setup.json q.body)) [
    | inl unread ↦ rw (unread, handle) (unchanged-Served q g g.world (ground arith))
    | inr (r, read) ↦
        let calls : is_chat_call setup q ≡ true = ground arith in
        let v =
          chat_completions-AtMostOne setup.sem setup.hasher setup.configs c setup.providers r g in
        rw (read, handle)
          (record { counted = rw calls v.counted; outcome = rw calls v.outcome; paid = v.paid })
  ]

  routed-Served :
      (c : Clock) (q : ServerRequest) (g : Gateway S C) → Served q g (routed setup c q g).1
  unfolding routed
  routed-Served c q g =
      elim (Option-cases (setup.router.find_route api_routes q.method q.headers.path)) [
        | inl missing ↦
            rw (missing, routed)
              (unchanged-Served q g g.world (ground (arith, route_missing setup.router q missing)))
        | inr (r, found) ↦ elim (Verdict-cases (auth_middleware setup.api_keys q.headers)) [
          | inr (m, denied) ↦
              rw (found, routed, denied) (unchanged-Served q g g.world (ground arith))
          | inl (who, through) ↦
              rw (found, routed, through)
                (handle-Served c r.endpoint q g (rw through refl)
                  (route_found setup.router q r found))
        ]
      ]

  -- How many of the requests reach the endpoint of completions.
  abbrev pub chat_calls : List Arrival → ℕ
  chat_calls [] = 0
  chat_calls (a ∷ rest) = (if is_chat_call setup a.request then 1 else 0) + chat_calls rest

  -- While fewer than 2 ^ 64 requests have come in all, a server that starts consistent counts
  -- exactly the requests that reach the endpoint of completions, whatever else is asked, refused
  -- or not found, and stays consistent: the errors counted and the events that the handlers publish
  -- are together no more than these requests, and the costs recorded no more than the events.
  pub serve_all-IsConsistent :
      (arrivals : List Arrival) (g : Gateway S C)
      → g.request_count + length arrivals < 0x10000000000000000
      → IsConsistent g
      → IsConsistent (serve_all setup arrivals g)
        × ((serve_all setup arrivals g).request_count ≡ g.request_count + chat_calls arrivals)
  unfolding serve_all respond
  serve_all-IsConsistent [] g fits v = (v, omega arith)
  serve_all-IsConsistent (a ∷ rest) g fits v =
      let s = routed-Served a.clock a.request g in
      let g' = (routed setup a.clock a.request g).1 in
      let step : g'.request_count
          ≡ g.request_count + (if is_chat_call setup a.request then 1 else 0) =
        ground (arith, s.counted) in
      let (v', total) = serve_all-IsConsistent rest g' (ground (arith, step)) (record {
        outcomes = omega (arith, s.outcome, step, v.outcomes);
        billed = omega (arith, s.paid, v.billed);
      }) in
      (v', omega (arith, total, step))
