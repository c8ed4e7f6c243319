-- ===== src/Gateway/Stream.antt =====
-- The event stream of a streamed completion: the loop of `handle_stream`, routes/inference.rs. The
-- provider's stream is the list of its items up to its end; serialising a chunk does not fail.
pub mod Laws
use neu_rust.Prelude.{
  ◌∷◌, ◌++◌, if◌then◌else◌, [], true, false, none, some, Bool, List, Option, is_empty,
}
use neu_rust.Prelude.Text.{Str, utf8}
use neu_rust.Contracts.{StreamChunk, TokenUsage}
use neu_rust.Routing.Provider.{Result, err, ok}

-- The fields of a chunk as they are sent, without the id and the time of creation.
pub record StreamChunkResponse : Type 0 where
  pub model : Str
  pub role : Option Str
  pub content : Option Str
  pub finish_reason : Option Str
  pub usage : Option TokenUsage

pub data SseEvent : Type 0 where
  chunk_event : StreamChunkResponse → SseEvent
  error_event : Str → SseEvent
  done_event : SseEvent

abbrev pub to_chunk : Str → Bool → StreamChunk → StreamChunkResponse
to_chunk model first c = record {
  model = model;
  role = if first then some (utf8 "assistant") else none;
  content = if is_empty c.delta then none else some c.delta;
  finish_reason = if c.finished then some (utf8 "stop") else none;
  usage = c.usage;
}

-- The completion that is published with the last chunk, if that carries the usage.
abbrev pub usage_of : StreamChunk → List TokenUsage
usage_of c = elim c.usage [ none ↦ [] | some u ↦ u ∷ [] ]

-- The events sent up to the end of the loop, and the usages published.
unfoldable pub stream_loop :
    Str → Bool → List (Result StreamChunk) → List SseEvent × List TokenUsage
stream_loop model first [] = ([], [])
stream_loop model first (err e ∷ items) = (error_event (utf8 "Stream error: " ++ e) ∷ [], [])
stream_loop model first (ok c ∷ items) =
    let (events, published) = stream_loop model false items in
    if c.finished
    then (chunk_event (to_chunk model first c) ∷ [], usage_of c)
    else (chunk_event (to_chunk model first c) ∷ events, published)

-- The whole stream, closed by the marker.
unfoldable pub sse_stream : Str → List (Result StreamChunk) → List SseEvent × List TokenUsage
unfolding stream_loop
sse_stream model items =
    let (events, published) = stream_loop model true items in (events ++ done_event ∷ [], published)
