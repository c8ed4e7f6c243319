-- ===== src/Gateway/Stream/Laws.antt =====
-- What a client reads from the stream.
use neu_rust.Prelude.{
  ◌≡◌, ◌∷◌, ◌++◌, ◌∙◌, if◌then◌else◌, [], refl, arith, inl, inr, true, false, List, Bool, ap,
  get_or, is_some, sym, Bool-cases, is_empty, none, some,
}
use neu_rust.Prelude.Text.{Str, utf8}
use neu_rust.Gateway.Stream.{
  SseEvent, sse_stream, stream_loop, chunk_event, done_event, error_event, to_chunk, usage_of,
}
use neu_rust.Routing.Provider.{Result, err, ok}
use neu_rust.Contracts.{StreamChunk, TokenUsage}
use mathlib.Core.List.{append-nil, append_assoc}

-- The chunks that the provider sends up to the first that is marked as finished, or an error.
abbrev pub delivered : List (Result StreamChunk) → List StreamChunk
delivered [] = []
delivered (err e ∷ items) = []
delivered (ok c ∷ items) = c ∷ (if c.finished then [] else delivered items)

-- The text that a client puts together from the events.
abbrev pub text_of : List SseEvent → Str
text_of [] = []
text_of (chunk_event c ∷ es) = get_or c.content [] ++ text_of es
text_of (error_event e ∷ es) = text_of es
text_of (done_event ∷ es) = text_of es

abbrev pub deltas : List StreamChunk → Str
deltas [] = []
deltas (c ∷ cs) = c.delta ++ deltas cs

nil_of_is_empty : (s : Str) → is_empty s ≡ true → s ≡ []
nil_of_is_empty [] h = refl
nil_of_is_empty (c ∷ s) h = absurd (cc h)

content-delta :
    (model : Str) (first : Bool) (c : StreamChunk)
    → get_or (to_chunk model first c).content [] ≡ c.delta
content-delta model first c = elim (Bool-cases (is_empty c.delta)) [
  | inl empty ↦ rw empty (sym (nil_of_is_empty c.delta empty))
  | inr full ↦ rw full
]

text-stream_loop :
    (model : Str) (first : Bool) (items : List (Result StreamChunk))
    → text_of (stream_loop model first items).0 ≡ deltas (delivered items)
unfolding stream_loop
text-stream_loop model first [] = refl
text-stream_loop model first (err e ∷ items) = refl
text-stream_loop model first (ok c ∷ items) =
    ground (arith, content-delta model first c, text-stream_loop model false items)

text-append : (es fs : List SseEvent) → text_of (es ++ fs) ≡ text_of es ++ text_of fs
text-append [] fs = refl
text-append (chunk_event c ∷ es) fs =
    ap (◌++◌ (get_or c.content [])) (text-append es fs)
    ∙ sym (append_assoc (get_or c.content []) (text_of es) (text_of fs))
text-append (error_event e ∷ es) fs = text-append es fs
text-append (done_event ∷ es) fs = text-append es fs

-- The client's text is exactly the deltas of the provider, up to the chunk marked as finished or
-- the error.
pub text-sse_stream :
    (model : Str) (items : List (Result StreamChunk))
    → text_of (sse_stream model items).0 ≡ deltas (delivered items)
unfolding sse_stream
text-sse_stream model items =
    text-append (stream_loop model true items).0 (done_event ∷ [])
    ∙ (append-nil (text_of (stream_loop model true items).0) ∙ text-stream_loop model true items)

abbrev pub is_done : SseEvent → Bool
is_done (chunk_event c) = false
is_done (error_event e) = false
is_done done_event = true

-- The event is the last that a client needs: an error, or a chunk with a finish reason.
abbrev pub is_final : SseEvent → Bool
is_final (chunk_event c) = is_some c.finish_reason
is_final (error_event e) = true
is_final done_event = false

-- A well-formed stream: chunks or an error, none after a final one; then the marker and no more.
abbrev pub IsStream : List SseEvent → Type 0
IsStream [] = ⊥
IsStream (e ∷ []) = is_done e ≡ true
IsStream (e ∷ f ∷ es) =
    (is_done e ≡ false) × (is_final e ≡ true → is_done f ≡ true) × IsStream (f ∷ es)

-- A chunk that is not final may be followed by any stream.
IsStream-cons :
    (e : SseEvent) (es : List SseEvent)
    → is_done e ≡ false
    → is_final e ≡ false
    → IsStream es
    → IsStream (e ∷ es)
IsStream-cons e [] h k rest = absurd rest
IsStream-cons e (f ∷ es) h k rest = (h, λ final. absurd (cc (final, k)), rest)

-- The events of one round of the loop, which ends at a final chunk.
IsStream-round :
    (b : Bool) (e : SseEvent) (es : List SseEvent) (ps qs : List TokenUsage)
    → is_done e ≡ false
    → is_final e ≡ b
    → IsStream (es ++ done_event ∷ [])
    → IsStream (
        (if◌then◌else◌ {A = List SseEvent × List TokenUsage} b (e ∷ [], ps) (e ∷ es, qs)).0
        ++ done_event ∷ [])
IsStream-round true e es ps qs h k rest = (h, λ final. refl, refl)
IsStream-round false e es ps qs h k rest = IsStream-cons e (es ++ done_event ∷ []) h k rest

is_some-if : {A : Type 0} (b : Bool) (a : A) → is_some (if b then some a else none) ≡ b
is_some-if true a = refl
is_some-if false a = refl

IsStream-stream_loop :
    (model : Str) (first : Bool) (items : List (Result StreamChunk))
    → IsStream ((stream_loop model first items).0 ++ done_event ∷ [])
unfolding stream_loop
IsStream-stream_loop model first [] = refl
IsStream-stream_loop model first (err e ∷ items) = (refl, λ h. refl, refl)
IsStream-stream_loop model first (ok c ∷ items) =
    IsStream-round c.finished (chunk_event (to_chunk model first c))
      (stream_loop model false items).0 (usage_of c) (stream_loop model false items).1 refl
      (is_some-if c.finished (utf8 "stop")) (IsStream-stream_loop model false items)

-- Whatever the provider sends, the client gets chunks or an error, nothing but the marker after an
-- error or a chunk with a finish reason, and the marker once, at the end.
pub sse_stream-IsStream :
    (model : Str) (items : List (Result StreamChunk)) → IsStream (sse_stream model items).0
unfolding sse_stream
sse_stream-IsStream model items = IsStream-stream_loop model true items
