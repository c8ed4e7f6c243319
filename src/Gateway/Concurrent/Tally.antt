-- ===== src/Gateway/Concurrent/Tally.antt =====
-- What a step of a task does to the counters, the events and the costs, and to what is still to come
-- of each.
use neu_rust.Prelude.{
  ◌≡◌, ◌≤◌, ◌+◌, ◌∷◌, ◌++◌, [], false, refl, arith, inl, inr, List, ℕ, length, Option-cases,
  length-append, Bool-cases, get_or, ap,
}
use neu_rust.Prelude.Keys.{nat_eq, text_eq}
use neu_rust.Cache.Tiered.{Semantic}
use neu_rust.Cache.Key.{Hasher}
use neu_rust.Gateway.Inference.{
  Gateway, GatewayEvent, Clock, ChatCompletionRequest, cache_hit, request_completed,
  completed_event, lookup_in, validate, to_unified_request, recorded_cost, lost_cost,
}
use neu_rust.Routing.Provider.{Provider, ProviderConfig}
use neu_rust.Gateway.Concurrent.{
  Task, looking, announcing_hit, asking, opening, failing, storing, spawning, announcing, recording,
  begin, advance,
}
use neu_rust.Gateway.State.{find_provider}
use neu_rust.Prelude.Text.{utf8}
use neu_rust.Gateway.Inference.Laws.{Result-cases, length-recorded_cost}

abbrev pub total : {S : Type 0} → (Task S → ℕ) → List (Task S) → ℕ
total weight [] = 0
total weight (t ∷ ts) = weight t + total weight ts

-- Whether a task is still to end in an error, an event or a stream.
abbrev pub is_open : {S : Type 0} → Task S → ℕ
is_open (recording e) = 0
is_open t = 1

-- Whether a task is about to publish a completion.
abbrev pub is_announcing : {S : Type 0} → Task S → ℕ
is_announcing (announcing a) = 1
is_announcing t = 0

-- Whether a task is about to record a cost.
abbrev pub is_recording : {S : Type 0} → Task S → ℕ
is_recording (recording e) = 1
is_recording t = 0

-- How many of the events tell of a completion by a provider.
abbrev pub completions : List GatewayEvent → ℕ
completions [] = 0
completions (cache_hit ms tier model ∷ es) = completions es
completions (request_completed ms provider model latency usage cached ∷ es) = 1 + completions es

pub total-append :
    {S : Type 0} (weight : Task S → ℕ) (ts us : List (Task S))
    → total weight (ts ++ us) ≡ total weight ts + total weight us
total-append weight [] us = omega arith
total-append weight (t ∷ ts) us = omega (arith, total-append weight ts us)

-- The weight of the tasks after one of them has moved.
pub total-moved :
    {S : Type 0} (weight : Task S → ℕ) (t : Task S) (before ts after all : List (Task S))
    → all ≡ before ++ t ∷ after
    → total weight (before ++ (ts ++ after)) + weight t ≡ total weight all + total weight ts
total-moved weight t before ts after all split = omega (
  arith,
  total-append weight before (ts ++ after),
  total-append weight ts after,
  total-append weight before (t ∷ after),
  ap (total weight) split,
)

pub completions-append :
    (es fs : List GatewayEvent) → completions (es ++ fs) ≡ completions es + completions fs
completions-append [] fs = omega arith
completions-append (cache_hit ms tier model ∷ es) fs = completions-append es fs
completions-append (request_completed ms provider model latency usage cached ∷ es) fs =
    omega (arith, completions-append es fs)

-- A step of a task loses no outcome and no cost.
pub record Keeps {S C : Type 0} (t : Task S) (g g' : Gateway S C) (ts : List (Task S))
    : Type 0 where
  pub counted : g'.request_count ≡ g.request_count
  pub outcomes :
      g'.error_count + length g'.events + total is_open ts
      ≤ g.error_count + length g.events + is_open t
  pub paired :
      completions g'.events
        + total is_announcing ts
        + length g.costs
        + length g.lost
        + is_recording t
      ≡ completions g.events
        + is_announcing t
        + length g'.costs
        + length g'.lost
        + total is_recording ts

module _ {S C : Type 0} (sem : Semantic C) (h : Hasher) (configs : List ProviderConfig)
    (providers : List (Provider S)) where
  -- A request starts as one open task or none.
  pub begin-total :
      (q : ChatCompletionRequest)
      → let ts = begin sem h configs providers q in
        (total is_open ts ≤ 1) × (total is_announcing ts ≡ 0) × (total is_recording ts ≡ 0)
  unfolding begin
  begin-total q = elim (Option-cases (validate q)) [
    | inr (e, refused) ↦ rw (begin, refused) (omega arith, refl, refl)
    | inl valid ↦ elim (Option-cases (find_provider configs providers q.model)) [
      | inl unknown ↦ rw (begin, valid, unknown) (omega arith, refl, refl)
      | inr (p, found) ↦ elim (Bool-cases (get_or q.stream false)) [
        | inl streams ↦ rw (begin, valid, found, streams) (omega arith, refl, refl)
        | inr whole ↦ rw (begin, valid, found, whole) (omega arith, refl, refl)
      ]
    ]
  ]

  pub advance-Keeps :
      (c : Clock) (t : Task S) (g : Gateway S C)
      → let (g', ts) = advance sem h configs providers c t g in Keeps t g g' ts
  unfolding advance
  advance-Keeps c (looking p q) g =
      elim (Option-cases (lookup_in sem h c.now g.cache (to_unified_request q)).1) [
        | inl missed ↦
            rw (advance, missed)
              (record { counted = refl; outcomes = omega arith; paired = omega arith })
        | inr (a, hit) ↦
            rw (advance, hit)
              (record { counted = refl; outcomes = omega arith; paired = omega arith })
      ]
  advance-Keeps c (announcing_hit model) g =
      let hit = cache_hit c.now_ms (utf8 "tiered") model in
      record {
        counted = refl;
        outcomes = omega (arith, length-append g.events (hit ∷ []));
        paired = omega (arith, completions-append g.events (hit ∷ []));
      }
  advance-Keeps c (asking p r) g = elim (Result-cases (p.complete r g.world).0) [
    | inl (a, answered) ↦
        rw (advance, answered)
          (record { counted = refl; outcomes = omega arith; paired = omega arith })
    | inr (e, failed) ↦
        rw (advance, failed)
          (record { counted = refl; outcomes = omega arith; paired = omega arith })
  ]
  advance-Keeps c (opening p r) g = elim (Result-cases (p.complete_stream r g.world).0) [
    | inl (chunks, answered) ↦
        rw (advance, answered)
          (record { counted = refl; outcomes = omega arith; paired = omega arith })
    | inr (e, failed) ↦
        rw (advance, failed)
          (record { counted = refl; outcomes = omega arith; paired = omega arith })
  ]
  advance-Keeps c failing g = record {
    counted = refl;
    outcomes = omega arith;
    paired = omega arith;
  }
  advance-Keeps c (storing r a) g = record {
    counted = refl;
    outcomes = omega arith;
    paired = omega arith;
  }
  advance-Keeps c (spawning a) g = record {
    counted = refl;
    outcomes = omega arith;
    paired = omega arith;
  }
  advance-Keeps c (announcing a) g =
      let done = completed_event c.now_ms a in
      record {
        counted = refl;
        outcomes = omega (arith, length-append g.events (done ∷ []));
        paired = omega (arith, completions-append g.events (done ∷ []));
      }
  advance-Keeps c (recording e) g = record {
    counted = refl;
    outcomes = omega arith;
    paired = omega (
      arith,
      length-append g.costs (recorded_cost c.recorded e),
      length-append g.lost (lost_cost c.recorded e),
      length-recorded_cost c.recorded e,
    );
  }
