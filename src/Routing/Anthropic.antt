-- ===== src/Routing/Anthropic.antt =====
-- The provider of Anthropic, crates/neurust-core/src/provider/anthropic.rs, with the HTTP library
-- and the JSON parser as interfaces.
use neu_rust.Prelude.{
  true, false, map, ◌+◌, ◌%◌, ◌∷◌, ◌++◌, ◌||◌, ◌==◌, if◌then◌else◌, [], none, some, List, Option, ℕ,
  get_or, is_empty, Bool, filter, not,
}
use neu_rust.Prelude.Text.{Str, utf8, str_eq, concat, join, strip_prefix}
use neu_rust.Contracts.{
  healthy, degraded, down, UnifiedRequest, Message, system_message_text, StreamChunk, TokenUsage,
  UnifiedResponse, is_user, ProviderHealth, is_system,
}
use neu_rust.Routing.Provider.{Result, ok, err, Provider}
use neu_rust.Routing.Upstream.{
  not_sent, refused, replied, not_streamed, stream_refused, streamed, read, broken, probed,
  unreachable, LineRead, Upstream, is_success,
}
use neu_rust.Prelude.Unicode.{Unicode, trim_chars, chars}
use neu_rust.Prelude.Float.{F64}

pub record AnthropicProvider : Type 0 where
  pub id : Str
  pub base_url : Str
  pub models : List Str

abbrev pub new_anthropic : Str → Option Str → List Str → AnthropicProvider
new_anthropic id base_url models = record {
  id = id;
  base_url = get_or base_url (utf8 "https://api.anthropic.com");
  models = models;
}

pub record AnthropicMessage : Type 0 where
  pub role : Str
  pub content : Str

pub record AnthropicRequest : Type 0 where
  pub model : Str
  pub system : Option Str
  pub messages : List AnthropicMessage
  pub max_tokens : ℕ
  pub temperature : Option F64
  pub stream : Bool

pub record ContentBlock : Type 0 where
  pub content_type : Str
  pub text : Option Str

pub record AnthropicResponse : Type 0 where
  pub id : Str
  pub model : Str
  pub content : List ContentBlock
  pub input_tokens : ℕ
  pub output_tokens : ℕ

-- Messages of the system are filtered out before; their arm of the match is not reached.
abbrev pub anthropic_message : Message → AnthropicMessage
anthropic_message m = record {
  role = if is_user m.role then utf8 "user" else utf8 "assistant";
  content = m.content;
}

unfoldable pub anthropic_body : UnifiedRequest → AnthropicRequest
unfolding system_message_text
anthropic_body r =
    let text = system_message_text r in
    record {
      model = r.model.model_name;
      system = if is_empty text then none else some text;
      messages = map anthropic_message (filter (λ m. not (is_system m.role)) r.messages);
      max_tokens = get_or r.max_tokens 4096;
      temperature = r.temperature;
      stream = r.stream;
    }

-- The text of the blocks of type "text".
abbrev pub block_texts : List ContentBlock → List Str
block_texts [] = []
block_texts (b ∷ bs) =
    let rest = block_texts bs in
    if str_eq b.content_type (utf8 "text")
    then elim b.text [ none ↦ rest | some text ↦ text ∷ rest ]
    else rest

-- The sum of the tokens wraps, as it does without the checks of a debug build.
unfoldable pub anthropic_answer : AnthropicProvider → ℕ → AnthropicResponse → UnifiedResponse
anthropic_answer p latency_ms a = record {
  content = join (block_texts a.content) [];
  model = a.model;
  usage = record {
    prompt_tokens = a.input_tokens;
    completion_tokens = a.output_tokens;
    total_tokens = (a.input_tokens + a.output_tokens) % 0x100000000;
  };
  provider_id = p.id;
  latency_ms = latency_ms;
  upstream_id = some a.id;
}

abbrev pub text_chunk : Option Str → StreamChunk
text_chunk text = record { delta = get_or text []; finished = false; usage = none }

abbrev pub delta_usage : Option ℕ → Option TokenUsage
delta_usage none = none
delta_usage (some output_tokens) =
    some (record {
      prompt_tokens = 0;
      completion_tokens = output_tokens;
      total_tokens = output_tokens;
    })

abbrev pub final_chunk : Option ℕ → StreamChunk
final_chunk output_tokens = record {
  delta = [];
  finished = true;
  usage = delta_usage output_tokens;
}

-- The parser of a delta, which may have no text, and of the delta of a message with its usage.
pub record AnthropicParser : Type 0 where
  pub content_delta : Str → Option (Option (Option Str))
  pub message_delta : Str → Option (Option ℕ)

module _ (u : Unicode) (parse : AnthropicParser) where
  -- What is sent for the data of an event, and whether the loop ends.
  abbrev pub anthropic_event : Str → Str → List StreamChunk × Bool
  anthropic_event event data_text =
      if str_eq event (utf8 "content_block_delta")
      then elim (parse.content_delta data_text) [
        | some (some text) ↦ (text_chunk text ∷ [], false)
        | _ ↦ ([], false)
      ]
      else if str_eq event (utf8 "message_delta")
      then elim (parse.message_delta data_text) [
        | some output_tokens ↦ (final_chunk output_tokens ∷ [], false)
        | none ↦ ([], false)
      ]
      else ([], str_eq event (utf8 "message_stop"))

  -- A line: the event after it, what is sent, and whether the loop ends.
  abbrev pub anthropic_line : Str → Str → Str × (List StreamChunk × Bool)
  anthropic_line current line =
      if is_empty line then ([], ([], false)) else elim (strip_prefix line (utf8 "event: ")) [
        | some event ↦ (event, ([], false))
        | none ↦ elim (strip_prefix line (utf8 "data: ")) [
          | none ↦ (current, ([], false))
          | some data_text ↦ (current, anthropic_event current data_text)
        ]
      ]

  -- The loop over the lines, with `current_event`.
  unfoldable pub anthropic_stream : Str → List LineRead → List (Result StreamChunk)
  anthropic_stream current [] = []
  anthropic_stream current (broken e ∷ lines) = err (utf8 "Stream read error: " ++ e) ∷ []
  anthropic_stream current (read line ∷ lines) =
      let (event, (chunks, stops)) = anthropic_line current (concat (trim_chars u (chars line))) in
      let rest = anthropic_stream event lines in map ok chunks ++ (if stops then [] else rest)

  module _ {S : Type 0} (http : Upstream S AnthropicRequest AnthropicResponse)
      (p : AnthropicProvider) (latency_ms : ℕ) where
    abbrev pub messages_url : Str
    messages_url = p.base_url ++ utf8 "/v1/messages"

    unfoldable pub anthropic_complete : UnifiedRequest → S → Result UnifiedResponse × S
    unfolding anthropic_body anthropic_answer
    anthropic_complete r world =
        let (sent, world') = http.send messages_url (anthropic_body r) world in
        (
          elim sent [
            | not_sent e ↦ err (utf8 "Anthropic request failed")
            | refused status text ↦
                err (utf8 "Anthropic API error (" ++ (status ++ (utf8 "): " ++ text)))
            | replied none ↦ err (utf8 "Failed to parse Anthropic response")
            | replied (some a) ↦ ok (anthropic_answer p latency_ms a)
          ],
          world',
        )

    unfoldable pub anthropic_complete_stream :
        UnifiedRequest → S → Result (List (Result StreamChunk)) × S
    unfolding anthropic_body anthropic_stream
    anthropic_complete_stream r world =
        let (sent, world') =
          http.send_stream messages_url (record (anthropic_body r) { stream = true }) world in
        (
          elim sent [
            | not_streamed e ↦ err (utf8 "Anthropic stream request failed")
            | stream_refused text ↦ err (utf8 "Anthropic API error: " ++ text)
            | streamed lines ↦ ok (anthropic_stream [] lines)
          ],
          world',
        )

    -- The health by the answer to a minimal request; 400 means that the provider is there.
    unfoldable pub anthropic_health : S → ProviderHealth × S
    anthropic_health world =
        let (answer, world') = http.probe messages_url world in
        (
          elim answer [
            | probed code status ↦
                if is_success code || code == 400
                then record { status = healthy; latency_ms = latency_ms; error = none }
                else record {
                  status = degraded;
                  latency_ms = latency_ms;
                  error = some (
                      (if (code == 401) || (code == 403)
                        then utf8 "Auth error: HTTP "
                        else utf8 "HTTP ")
                      ++ status);
                }
            | unreachable e ↦ record { status = down; latency_ms = latency_ms; error = some e }
          ],
          world',
        )

    -- The provider as one of the registry.
    abbrev pub anthropic_provider : Provider S
    anthropic_provider = record {
      name = p.id;
      supported_models = p.models;
      complete = anthropic_complete;
      complete_stream = anthropic_complete_stream;
      health_check = anthropic_health;
    }
