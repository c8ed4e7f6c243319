-- ===== src/Routing/Mock/Laws.antt =====
-- What a client of the gateway gets from the provider that answers without a server.
use neu_rust.Prelude.{
  ◌≡◌, ◌+◌, ◌∷◌, ◌++◌, [], false, refl, arith, List, ℕ, suc, length, map, Bool, is_empty, ◌∙◌,
  if◌then◌else◌, true,
}
use neu_rust.Prelude.Text.{Str, utf8}
use neu_rust.Routing.Provider.{ok}
use neu_rust.Routing.Mock.{mock_chunks, mock_chunk, mock_usage, mock_stream, mock_words}
use neu_rust.Gateway.Stream.{stream_loop, sse_stream}
use neu_rust.Gateway.Stream.Laws.{deltas, delivered, text_of, text-sse_stream}
use neu_rust.Prelude.Unicode.{Unicode}
use neu_rust.Contracts.{UnifiedRequest}

abbrev pub spaced_after : List Str → Str
spaced_after [] = []
spaced_after (w ∷ ws) = (utf8 " " ++ w) ++ spaced_after ws

-- The words with a blank between two of them.
abbrev pub spaced : List Str → Str
spaced [] = []
spaced (w ∷ ws) = w ++ spaced_after ws

-- Only the last chunk is marked as finished, and the delta of another than the first has a blank.
mock_chunk-finished :
    (count i : ℕ) (w : Str) (ws : List Str)
    → i + suc (length ws) ≡ count
    → (mock_chunk count i w).finished ≡ is_empty ws
mock_chunk-finished count i w [] whole = ground arith
mock_chunk-finished count i w (v ∷ ws) whole = ground arith

mock_chunk-delta : (count i : ℕ) (w : Str) → (mock_chunk count (suc i) w).delta ≡ utf8 " " ++ w
mock_chunk-delta count i w = ground arith

deltas-mock_chunks :
    (count i : ℕ) (ws : List Str)
    → suc i + length ws ≡ count
    → deltas (delivered (map ok (mock_chunks count (suc i) ws))) ≡ spaced_after ws
unfolding mock_chunks
deltas-mock_chunks count i [] whole = refl
deltas-mock_chunks count i (w ∷ []) whole =
    ground (arith, mock_chunk-finished count (suc i) w [] whole, mock_chunk-delta count i w)
deltas-mock_chunks count i (w ∷ v ∷ ws) whole = ground (
  arith,
  mock_chunk-finished count (suc i) w (v ∷ ws) whole,
  mock_chunk-delta count i w,
  deltas-mock_chunks count (suc i) (v ∷ ws) (omega arith),
)

usage-mock_chunks :
    (count i : ℕ) (first : Bool) (model : Str) (w : Str) (ws : List Str)
    → i + suc (length ws) ≡ count
    → (stream_loop model first (map ok (mock_chunks count i (w ∷ ws)))).1 ≡ mock_usage count ∷ []
unfolding mock_chunks stream_loop
usage-mock_chunks count i first model w [] whole =
    ground (arith, mock_chunk-finished count i w [] whole)
usage-mock_chunks count i first model w (v ∷ ws) whole = ground (
  arith,
  mock_chunk-finished count i w (v ∷ ws) whole,
  usage-mock_chunks count (suc i) false model v ws (omega arith),
)

-- The first chunk has the first word without a blank.
deltas-mock_stream :
    (ws : List Str) → deltas (delivered (map ok (mock_chunks (length ws) 0 ws))) ≡ spaced ws
unfolding mock_chunks
deltas-mock_stream [] = refl
deltas-mock_stream (w ∷ []) = refl
deltas-mock_stream (w ∷ v ∷ ws) =
    let count = suc (length (v ∷ ws)) in
    ground (
      arith,
      mock_chunk-finished count 0 w (v ∷ ws) (omega arith),
      deltas-mock_chunks count 0 (v ∷ ws) (omega arith),
    )

usage-mock_stream :
    (model : Str) (ws : List Str)
    → (stream_loop model true (map ok (mock_chunks (length ws) 0 ws))).1
      ≡ (if is_empty ws then [] else mock_usage (length ws) ∷ [])
unfolding stream_loop mock_chunks
usage-mock_stream model [] = refl
usage-mock_stream model (w ∷ ws) =
    usage-mock_chunks (suc (length ws)) 0 true model w ws (omega arith)

-- Through the gateway, a client puts together the words of the answer with one blank between two of
-- them, whatever blanks the message had, and the completion is published once, with the number of
-- the words, or never if there are none.
pub mock_stream-delivered :
    (u : Unicode) (r : UnifiedRequest) (model : Str)
    → let (events, published) = sse_stream model (mock_stream u r) in
      let words = mock_words u r in
      (text_of events ≡ spaced words)
      × (published ≡ (if is_empty words then [] else mock_usage (length words) ∷ []))
unfolding sse_stream mock_stream
mock_stream-delivered u r model = (
  text-sse_stream model (mock_stream u r) ∙ deltas-mock_stream (mock_words u r),
  usage-mock_stream model (mock_words u r),
)
