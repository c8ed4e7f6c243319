-- ===== src/Routing/Pipeline/Order.antt =====
-- The order of the calls of one execution, seen by layers and a provider that write them down.
use neu_rust.Prelude.{
  ◌≡◌, ◌∷◌, ◌++◌, ◌&&◌, if◌then◌else◌, [], refl, true, false, none, some, Bool, List, Option, all,
  map, is_some, not, sym, reverse, arith, inl, map-reverse,
}
use neu_rust.Routing.Pipeline.{
  before, after, Layer, call_provider, execute, finish, select_provider,
}
use neu_rust.Prelude.Text.{Str}
use neu_rust.Routing.Provider.{Provider, Result, ok, err}
use neu_rust.Contracts.{UnifiedRequest, UnifiedResponse, healthy, StreamChunk}
use mathlib.Core.List.{append-nil, append_assoc}

pub data Event : Type 0 where
  request_seen : Str → Event
  provider_called : Str → Event
  response_seen : Str → Event

-- A layer that notes each call and then succeeds or fails as told, and leaves all else alone.
pub record Recorder : Type 0 where
  pub name : Str
  pub accepts_request : Bool
  pub accepts_response : Bool

abbrev pub outcome : Bool → Option Str
outcome true = none
outcome false = some []

abbrev pub layer : Recorder → Layer (List Event)
layer l = record {
  name = l.name;
  on_request = λ r s. (outcome l.accepts_request, r, s ++ request_seen l.name ∷ []);
  on_response = λ r a s. (outcome l.accepts_response, a, s ++ response_seen l.name ∷ []);
}

-- A provider that notes the call.
pub record Backend : Type 0 where
  pub name : Str
  pub models : List Str
  pub answer : Result UnifiedResponse
  pub chunks : Result (List (Result StreamChunk))

abbrev pub provider : Backend → Provider (List Event)
provider b = record {
  name = b.name;
  supported_models = b.models;
  complete = λ r s. (b.answer, s ++ provider_called b.name ∷ []);
  complete_stream = λ r s. (b.chunks, s ++ provider_called b.name ∷ []);
  health_check = λ s. (record { status = healthy; latency_ms = 0; error = none }, s);
}

-- The layers that see the request: all up to the first that refuses it.
abbrev pub seen_requests : List Recorder → List Event
seen_requests [] = []
seen_requests (l ∷ ls) = request_seen l.name ∷ (if l.accepts_request then seen_requests ls else [])

abbrev pub seen_responses : List Recorder → List Event
seen_responses [] = []
seen_responses (l ∷ ls) =
    response_seen l.name ∷ (if l.accepts_response then seen_responses ls else [])

abbrev pub is_answer : Result UnifiedResponse → Bool
is_answer (ok a) = true
is_answer (err e) = false

-- What an execution does, read off the layers: the requests in order; if all were accepted and a
-- provider was found, its call; if that answered and was no stream, the responses in reverse order.
abbrev pub expected : List Recorder → Backend → UnifiedRequest → List Event
expected ls b r =
    seen_requests ls
    ++ (if all (λ l. l.accepts_request) ls
        then provider_called b.name
          ∷ (if not r.stream && is_answer b.answer then seen_responses (reverse ls) else [])
        else [])

before-trace :
    (ls : List Recorder) (r : UnifiedRequest) (s : List Event)
    → ((before (map layer ls) r s).2 ≡ s ++ seen_requests ls)
      × ((before (map layer ls) r s).1 ≡ r)
      × (is_some (before (map layer ls) r s).0 ≡ not (all (λ l. l.accepts_request) ls))
unfolding before
before-trace [] r s = (sym (append-nil s), refl, refl)
before-trace (l ∷ ls) r s =
    let h = before-trace ls r (s ++ request_seen l.name ∷ []) in
    ground (arith, h.0, h.1, h.2, append_assoc s (request_seen l.name ∷ []) (seen_requests ls))

after-trace :
    (ls : List Recorder) (r : UnifiedRequest) (a : UnifiedResponse) (s : List Event)
    → (after (map layer ls) r a s).2 ≡ s ++ seen_responses ls
unfolding after
after-trace [] r a s = sym (append-nil s)
after-trace (l ∷ ls) r a s = ground (
  arith,
  after-trace ls r a (s ++ response_seen l.name ∷ []),
  append_assoc s (response_seen l.name ∷ []) (seen_responses ls),
)

finish-trace :
    (ls : List Recorder) (b : Backend) (r : UnifiedRequest) (answer : Result UnifiedResponse)
    (s : List Event)
    → (finish (map layer ls) (provider b) r answer s).1
      ≡ s ++ (if is_answer answer then seen_responses (reverse ls) else [])
unfolding finish
finish-trace ls b r (err e) s = sym (append-nil s)
finish-trace ls b r (ok a) s =
    let back : reverse (map layer ls) ≡ map layer (reverse ls) = map-reverse layer ls in
    ground (arith, after-trace (reverse ls) r a s, back)

call_provider-trace :
    (ls : List Recorder) (b : Backend) (r : UnifiedRequest) (s : List Event)
    → (call_provider (map layer ls) (provider b) r s).1
      ≡ s
        ++ (provider_called b.name
            ∷ (if not r.stream && is_answer b.answer then seen_responses (reverse ls) else []))
unfolding call_provider
call_provider-trace ls b r s = ground (
  arith,
  finish-trace ls b r b.answer (s ++ provider_called b.name ∷ []),
  append_assoc s (provider_called b.name ∷ []) (seen_responses (reverse ls)),
  append_assoc s (provider_called b.name ∷ []) [],
  append-nil (s ++ provider_called b.name ∷ []),
)

-- The calls of an execution, for layers that leave the request alone and a provider that the
-- request selects: the layers see the request in order, up to the first that refuses it; only if
-- none does, the provider is called; only if it answers and the request is no stream, the layers
-- see the response in reverse order, up to the first that refuses it.
pub execute-trace :
    (ls : List Recorder) (ps : List (Provider (List Event))) (b : Backend) (r : UnifiedRequest)
    (s : List Event)
    → select_provider ps r ≡ inl (provider b)
    → (execute (map layer ls) ps r s).2 ≡ s ++ expected ls b r
unfolding execute
execute-trace ls ps b r s selected =
    let h = before-trace ls r s in
    ground (
      arith,
      h.0,
      h.1,
      h.2,
      call_provider-trace ls b r (s ++ seen_requests ls),
      append-nil (seen_requests ls),
      append_assoc s (seen_requests ls) (
          provider_called b.name
          ∷ (if not r.stream && is_answer b.answer then seen_responses (reverse ls) else [])),
    )
