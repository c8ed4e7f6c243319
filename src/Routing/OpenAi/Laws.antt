-- ===== src/Routing/OpenAi/Laws.antt =====
-- What the streams of the provider carry.
use neu_rust.Prelude.{
  true, false, refl, map, inl, inr, Bool-cases, ◌≡◌, ◌∷◌, ◌++◌, [], none, some, Option, List, All,
  All-append, if-both, ◌||◌, ◌∙◌, if◌then◌else◌, Bool, ap, is_empty, if-cases,
}
use neu_rust.Prelude.Text.{Str, utf8, concat, str_eq, strip_prefix, starts_with}
use neu_rust.Routing.Provider.{Result, ok, err}
use neu_rust.Routing.Upstream.{read, broken, LineRead}
use neu_rust.Contracts.{StreamChunk}
use neu_rust.Prelude.Unicode.{Unicode, trim_chars, chars}
use neu_rust.Routing.OpenAi.{
  OpenAiStreamChoice, openai_stream, openai_line, openai_chunk, openai_done,
}
use neu_rust.Gateway.Stream.{sse_stream, stream_loop}

-- An item without usage.
abbrev HasNoUsage : Result StreamChunk → Type 0
HasNoUsage (ok c) = c.usage ≡ none
HasNoUsage (err e) = Unit

abbrev NoneHasUsage : List StreamChunk × Bool → Type 0
NoneHasUsage r = All HasNoUsage (map ok r.0)

-- The parameters are the tables of Unicode, the parser and the printer of chunks of the server.
module _ (u : Unicode) (parse : Str → Option (List OpenAiStreamChoice)) where
  line_has_no_usage : (line : Str) → NoneHasUsage (openai_line u parse line)
  line_has_no_usage line =
      if-both NoneHasUsage (is_empty line || starts_with line (utf8 ":")) tt
        (elim (strip_prefix line (utf8 "data: "))
          as (λ o. NoneHasUsage (elim o [
            | none ↦ ([], false)
            | some data_text ↦
                if str_eq data_text (utf8 "[DONE]")
                then (openai_done ∷ [], true)
                else elim (parse data_text) [
                  | none ↦ ([], false)
                  | some choices ↦ (openai_chunk choices ∷ [], false)
                ]
          ])) [
            | none ↦ tt
            | some data_text ↦
                if-both NoneHasUsage (str_eq data_text (utf8 "[DONE]")) (refl, tt)
                  (elim (parse data_text)
                    as (λ o. NoneHasUsage (elim o [
                      | none ↦ ([], false)
                      | some choices ↦ (openai_chunk choices ∷ [], false)
                    ])) [ none ↦ tt | some choices ↦ (refl, tt) ])
          ])

  openai_stream-HasNoUsage : (lines : List LineRead) → All HasNoUsage (openai_stream u parse lines)
  unfolding openai_stream
  openai_stream-HasNoUsage [] = tt
  openai_stream-HasNoUsage (broken e ∷ lines) = (tt, tt)
  openai_stream-HasNoUsage (read line ∷ lines) =
      let trimmed = concat (trim_chars u (chars line)) in
      All-append HasNoUsage (map ok (openai_line u parse trimmed).0) _ (line_has_no_usage trimmed) (
        if-both (All HasNoUsage) (openai_line u parse trimmed).1 tt
          (openai_stream-HasNoUsage lines))

  -- A line of the wire, which is trimmed when it is read: it carries a chunk, as the chunk's text
  -- behind "data: "; or it is blank, as between two events, a comment, or another field of an
  -- event, or its text is no chunk.
  pub data Wire (render : List OpenAiStreamChoice → Str) (line : Str)
      : List (List OpenAiStreamChoice) → Type 0 where
    carries :
        (choices : List OpenAiStreamChoice)
        → concat (trim_chars u (chars line)) ≡ utf8 "data: " ++ render choices
        → parse (render choices) ≡ some choices
        → str_eq (render choices) (utf8 "[DONE]") ≡ false
        → Wire render line (choices ∷ [])
    blank : concat (trim_chars u (chars line)) ≡ [] → Wire render line []
    comment : (text : Str) → concat (trim_chars u (chars line)) ≡ 58 ∷ text → Wire render line []
    field :
        strip_prefix (concat (trim_chars u (chars line))) (utf8 "data: ") ≡ none
        → Wire render line []
    garbage :
        (text : Str)
        → concat (trim_chars u (chars line)) ≡ utf8 "data: " ++ text
        → parse text ≡ none
        → str_eq text (utf8 "[DONE]") ≡ false
        → Wire render line []

  -- The lines of a server and the chunks that they carry, in order.
  pub data Wires (render : List OpenAiStreamChoice → Str)
      : List Str → List (List OpenAiStreamChoice) → Type 0 where
    finished : Wires render [] []
    line_of :
        {line : Str} {lines : List Str} {here rest : List (List OpenAiStreamChoice)}
        → Wire render line here
        → Wires render lines rest
        → Wires render (line ∷ lines) (here ++ rest)

  -- What is sent for a line, and for those after it.
  abbrev sent : List (Result StreamChunk) → List StreamChunk × Bool → List (Result StreamChunk)
  sent tail r = map ok r.0 ++ (if r.1 then [] else tail)

  chunk_line :
      (text : Str) (choices : List OpenAiStreamChoice)
      → parse text ≡ some choices
      → str_eq text (utf8 "[DONE]") ≡ false
      → openai_line u parse (utf8 "data: " ++ text) ≡ (openai_chunk choices ∷ [], false)
  chunk_line text choices parsed other = rw (other, parsed) refl

  unread_line :
      (text : Str)
      → parse text ≡ none
      → str_eq text (utf8 "[DONE]") ≡ false
      → openai_line u parse (utf8 "data: " ++ text) ≡ ([], false)
  unread_line text unread other = rw (other, unread) refl

  other_line :
      (line : Str)
      → strip_prefix line (utf8 "data: ") ≡ none
      → openai_line u parse line ≡ ([], false)
  other_line line other =
      if-cases (λ r. r ≡ ([], false)) (is_empty line || starts_with line (utf8 ":")) (λ h. refl)
        (λ h. rw other refl)

  -- What is read of one line.
  Wire-line :
      {render : List OpenAiStreamChoice → Str} {line : Str} {here : List (List OpenAiStreamChoice)}
      → Wire render line here
      → openai_line u parse (concat (trim_chars u (chars line))) ≡ (map openai_chunk here, false)
  Wire-line (carries choices text parsed other) =
      ap (openai_line u parse) text ∙ chunk_line _ choices parsed other
  Wire-line (blank text) = ap (openai_line u parse) text
  Wire-line (comment rest text) = ap (openai_line u parse) text
  Wire-line {line} (field other) = other_line (concat (trim_chars u (chars line))) other
  Wire-line (garbage rest text unread other) =
      ap (openai_line u parse) text ∙ unread_line rest unread other

  sent_in_order :
      (here more : List (List OpenAiStreamChoice)) (tail : List (Result StreamChunk))
      → map (λ c. ok c) (map openai_chunk here) ++ (map (λ c. ok (openai_chunk c)) more ++ tail)
        ≡ map (λ c. ok (openai_chunk c)) (here ++ more) ++ tail
  sent_in_order [] more tail = refl
  sent_in_order (c ∷ here) more tail =
      ap (λ items. ok (openai_chunk c) ∷ items) (sent_in_order here more tail)

  -- What a server sends is what the provider's stream gives: for lines that carry chunks, with
  -- blank lines, comments and whatever else is no chunk anywhere between them, then the marker and
  -- whatever follows it, the chunks in order, and a last one that is finished.
  pub openai_stream-wire :
      (render : List OpenAiStreamChoice → Str) {lines : List Str}
      {chunks : List (List OpenAiStreamChoice)} (marker : Str) (rest : List LineRead)
      → Wires render lines chunks
      → concat (trim_chars u (chars marker)) ≡ utf8 "data: [DONE]"
      → openai_stream u parse (map (λ line. read line) lines ++ read marker ∷ rest)
        ≡ map (λ c. ok (openai_chunk c)) chunks ++ ok openai_done ∷ []
  unfolding openai_stream
  openai_stream-wire render marker rest finished done = rw done refl
  openai_stream-wire render marker rest (line_of {lines} {here} {rest = more} w ws) done =
      ap (sent (openai_stream u parse (map (λ l. read l) lines ++ read marker ∷ rest)))
        (Wire-line w)
      ∙ ap (λ items. map (λ c. ok c) (map openai_chunk here) ++ items)
          (openai_stream-wire render marker rest ws done)
      ∙ sent_in_order here more (ok openai_done ∷ [])

-- The events of a stream of which no chunk has usage publish no completion.
published-HasNoUsage :
    (model : Str) (first : Bool) (items : List (Result StreamChunk))
    → All HasNoUsage items
    → (stream_loop model first items).1 ≡ []
unfolding stream_loop
published-HasNoUsage model first [] h = refl
published-HasNoUsage model first (err e ∷ items) h = refl
published-HasNoUsage model first (ok c ∷ items) h = elim (Bool-cases c.finished) [
  | inl last ↦ rw (last, h.0) refl
  | inr more ↦ rw more (published-HasNoUsage model false items h.1)
]

-- Whatever OpenAI sends, no streamed completion of it is published as an event.
pub openai_stream_unpublished :
    (u : Unicode) (parse : Str → Option (List OpenAiStreamChoice)) (model : Str)
    (lines : List LineRead)
    → (sse_stream model (openai_stream u parse lines)).1 ≡ []
unfolding sse_stream
openai_stream_unpublished u parse model lines =
    published-HasNoUsage model true (openai_stream u parse lines)
      (openai_stream-HasNoUsage u parse lines)
