-- ===== src/Routing/OpenAi.antt =====
-- The provider of OpenAI, crates/neurust-core/src/provider/openai.rs. The HTTP library and the JSON
-- parser are interfaces; the latency is that of the clock, an argument.
pub mod Laws
use mathlib.Core.Option
use neu_rust.Prelude.{
  true, false, map, ◌∷◌, ◌++◌, ◌||◌, if◌then◌else◌, [], none, some, List, Option, ℕ, Bool, get_or,
  head?, is_empty, is_some,
}
use neu_rust.Prelude.Text.{Str, utf8, concat, starts_with, strip_prefix, str_eq}
use neu_rust.Contracts.{
  Role, system, user, assistant, healthy, degraded, down, UnifiedRequest, StreamChunk, TokenUsage,
  UnifiedResponse, HealthStatus, ProviderHealth,
}
use neu_rust.Routing.Provider.{Result, ok, err, Provider}
use neu_rust.Routing.Upstream.{
  not_sent, refused, replied, not_streamed, stream_refused, streamed, read, broken, probed,
  unreachable, LineRead, Upstream, is_success,
}
use neu_rust.Prelude.Unicode.{Unicode, trim_chars, chars}
use neu_rust.Prelude.Float.{F64}

pub record OpenAiProvider : Type 0 where
  pub id : Str
  pub base_url : Str
  pub models : List Str

abbrev pub new_openai : Str → Option Str → List Str → OpenAiProvider
new_openai id base_url models = record {
  id = id;
  base_url = get_or base_url (utf8 "https://api.openai.com");
  models = models;
}

pub record WireMessage : Type 0 where
  pub role : Str
  pub content : Str

pub record OpenAiRequest : Type 0 where
  pub model : Str
  pub messages : List WireMessage
  pub temperature : Option F64
  pub max_tokens : Option ℕ
  pub stream : Bool

-- The response as far as it is read.
pub record OpenAiResponse : Type 0 where
  pub id : Str
  pub model : Str
  pub choices : List (Option Str)
  pub usage : TokenUsage

-- A choice of a chunk of a stream: the text and the reason to finish.
pub record OpenAiStreamChoice : Type 0 where
  pub content : Option Str
  pub finish_reason : Option Str

abbrev pub role_text : Role → Str
role_text system = utf8 "system"
role_text user = utf8 "user"
role_text assistant = utf8 "assistant"

unfoldable pub openai_body : UnifiedRequest → OpenAiRequest
openai_body r = record {
  model = r.model.model_name;
  messages = map (λ m. record { role = role_text m.role; content = m.content }) r.messages;
  temperature = r.temperature;
  max_tokens = r.max_tokens;
  stream = r.stream;
}

abbrev pub openai_answer : OpenAiProvider → ℕ → OpenAiResponse → Result UnifiedResponse
openai_answer p latency_ms a = elim a.choices [
  | [] ↦ err (utf8 "No choices in OpenAI response")
  | ◌∷◌ content rest ↦ ok (record {
    content = get_or content [];
    model = a.model;
    usage = a.usage;
    provider_id = p.id;
    latency_ms = latency_ms;
    upstream_id = some a.id;
  })
]

-- The last chunk, for the line with the marker.
abbrev pub openai_done : StreamChunk
openai_done = record { delta = []; finished = true; usage = none }

abbrev pub openai_chunk : List OpenAiStreamChoice → StreamChunk
openai_chunk choices = record {
  delta = get_or (Option.bind (head? choices) (λ c. c.content)) [];
  finished = is_some (Option.bind (head? choices) (λ c. c.finish_reason));
  usage = none;
}

module _ (u : Unicode) (parse : Str → Option (List OpenAiStreamChoice)) where
  -- What is sent for a line: nothing, an item, or the last one.
  abbrev pub openai_line : Str → List StreamChunk × Bool
  openai_line line =
      if is_empty line || starts_with line (utf8 ":")
      then ([], false)
      else elim (strip_prefix line (utf8 "data: ")) [
        | none ↦ ([], false)
        | some data_text ↦
            if str_eq data_text (utf8 "[DONE]")
            then (openai_done ∷ [], true)
            else elim (parse data_text) [
              | none ↦ ([], false)
              | some choices ↦ (openai_chunk choices ∷ [], false)
            ]
      ]

  -- The loop over the lines.
  unfoldable pub openai_stream : List LineRead → List (Result StreamChunk)
  openai_stream [] = []
  openai_stream (broken e ∷ lines) = err (utf8 "Stream read error: " ++ e) ∷ []
  openai_stream (read line ∷ lines) =
      let (chunks, stops) = openai_line (concat (trim_chars u (chars line))) in
      let rest = openai_stream lines in map ok chunks ++ (if stops then [] else rest)

  module _ {S : Type 0} (http : Upstream S OpenAiRequest OpenAiResponse) (p : OpenAiProvider)
      (latency_ms : ℕ) where
    abbrev pub completions_url : Str
    completions_url = p.base_url ++ utf8 "/v1/chat/completions"

    unfoldable pub openai_complete : UnifiedRequest → S → Result UnifiedResponse × S
    unfolding openai_body
    openai_complete r world =
        let (sent, world') = http.send completions_url (openai_body r) world in
        (
          elim sent [
            | not_sent e ↦ err (utf8 "OpenAI request failed")
            | refused status text ↦
                err (utf8 "OpenAI API error (" ++ (status ++ (utf8 "): " ++ text)))
            | replied none ↦ err (utf8 "Failed to parse OpenAI response")
            | replied (some a) ↦ openai_answer p latency_ms a
          ],
          world',
        )

    unfoldable pub openai_complete_stream :
        UnifiedRequest → S → Result (List (Result StreamChunk)) × S
    unfolding openai_body openai_stream
    openai_complete_stream r world =
        let (sent, world') =
          http.send_stream completions_url (record (openai_body r) { stream = true }) world in
        (
          elim sent [
            | not_streamed e ↦ err (utf8 "OpenAI stream request failed")
            | stream_refused text ↦ err (utf8 "OpenAI API error: " ++ text)
            | streamed lines ↦ ok (openai_stream lines)
          ],
          world',
        )

    abbrev pub health_of : HealthStatus → Option Str → ProviderHealth
    health_of status error = record { status = status; latency_ms = latency_ms; error = error }

    unfoldable pub openai_health : S → ProviderHealth × S
    openai_health world =
        let (answer, world') = http.probe (p.base_url ++ utf8 "/v1/models") world in
        (
          elim answer [
            | probed code status ↦
                if is_success code
                then health_of healthy none
                else health_of degraded (some (utf8 "HTTP " ++ status))
            | unreachable e ↦ health_of down (some e)
          ],
          world',
        )

    -- The provider as one of the registry.
    abbrev pub openai_provider : Provider S
    openai_provider = record {
      name = p.id;
      supported_models = p.models;
      complete = openai_complete;
      complete_stream = openai_complete_stream;
      health_check = openai_health;
    }
