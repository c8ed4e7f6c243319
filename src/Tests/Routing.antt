-- ===== src/Tests/Routing.antt =====
-- Routing at concrete inputs.
use neu_rust.Prelude.{
  map, true, refl, Option, List, ◌++◌, ◌||◌, if◌then◌else◌, none, get_or, ◌≡◌, ◌∷◌, [], arith,
  false, some, ℕ, get_elem?,
}
use neu_rust.Routing.Upstream.{read, broken}
use neu_rust.Routing.Provider.{get_provider, ok}
use neu_rust.Prelude.Keys.{nat_eq, text_eq}
use neu_rust.Tests.Data.{hello, question, servers, server}
use neu_rust.Routing.Pipeline.Order.{layer, provider, Backend, Recorder, expected, execute-trace}
use neu_rust.Routing.LoadBalancer.Fairness.{IsOpen, routed, balance_all_fair}
use neu_rust.Routing.LoadBalancer.{matching, balance_all}
use neu_rust.Routing.Fallback.{execute_with_fallback}
use neu_rust.Routing.Pipeline.{select_provider, execute}
use neu_rust.Prelude.Text.{utf8, Str, concat, str_eq}
use neu_rust.Routing.Fallback.Laws.{
  first_answer, no_providers, candidates, execute_with_fallback-first_answer,
}
use neu_rust.Contracts.{UnifiedRequest}
use neu_rust.Prelude.Unicode.{Unicode, chars, trim_chars}
use neu_rust.Routing.OpenAi.{OpenAiStreamChoice, openai_stream, openai_chunk, openai_done}
use neu_rust.Routing.OpenAi.Laws.{
  Wires, finished, line_of, carries, blank, comment, field, openai_stream-wire,
}

question-IsOpen : IsOpen (utf8 "m") question
question-IsOpen = record { unrouted = refl; same = refl }

balance_all_fair_example :
    (i : ℕ) × (r : UnifiedRequest) × (get_elem? (question ∷ question ∷ []) i ≡ some r)
    × (get_elem? (balance_all servers 5 (question ∷ question ∷ [])) i
        ≡ some (routed r (server (utf8 "b") true)))
unfolding matching
balance_all_fair_example =
    balance_all_fair servers (utf8 "m") 5 1 (question ∷ question ∷ []) (server (utf8 "b") true)
      (omega arith) refl (question-IsOpen, (question-IsOpen, tt)) refl

execute_with_fallback-first_answer_example :
    execute_with_fallback 1 question servers 0
    ≡ first_answer question (no_providers question) (candidates question 2 servers) 0
execute_with_fallback-first_answer_example = execute_with_fallback-first_answer question 1 servers 0

abbrev recorders : List Recorder
recorders =
    record { name = utf8 "x"; accepts_request = true; accepts_response = true }
    ∷ record { name = utf8 "y"; accepts_request = true; accepts_response = false }
    ∷ []

abbrev backend : Backend
backend = record { name = utf8 "a"; models = utf8 "m" ∷ []; answer = ok hello; chunks = ok [] }

execute-trace_example :
    (execute (map layer recorders) (provider backend ∷ []) question []).2
    ≡ expected recorders backend question
unfolding select_provider get_provider
execute-trace_example = execute-trace recorders (provider backend ∷ []) backend question [] refl

-- The tables, as far as ASCII.
abbrev ascii : Unicode
ascii = record {
  to_lowercase = λ s. s;
  is_alphanumeric = λ c. true;
  is_whitespace = λ c. str_eq c (32 ∷ []) || str_eq c (10 ∷ []);
}

-- A chunk with a text is written as the text between bars.
abbrev render : List OpenAiStreamChoice → Str
render [] = utf8 "||"
render (c ∷ cs) = utf8 "|" ++ (get_or c.content [] ++ utf8 "|")

abbrev parse_hi : Str → Option (List OpenAiStreamChoice)
parse_hi s =
    if str_eq s (utf8 "|hi|")
    then some (record { content = some (utf8 "hi"); finish_reason = none } ∷ [])
    else none

abbrev hi : List OpenAiStreamChoice
hi = record { content = some (utf8 "hi"); finish_reason = none } ∷ []

-- Two chunks, the blank lines between the events, and a comment.
abbrev wire : List Str
wire =
    utf8 ": connected\n"
    ∷ utf8 "data: |hi|\n"
    ∷ utf8 "\n"
    ∷ utf8 "event: message\n"
    ∷ utf8 "data: |hi|\n"
    ∷ utf8 "\n"
    ∷ []

wire-Wires : Wires ascii parse_hi render wire (hi ∷ hi ∷ [])
unfolding chars
wire-Wires = line_of (comment (utf8 " connected") refl) (
    line_of (carries hi refl refl refl) (
      line_of (blank refl) (
        line_of (field refl)
          (line_of (carries hi refl refl refl) (line_of (blank refl) finished)))))

marker-trimmed : concat (trim_chars ascii (chars (utf8 "data: [DONE]\n"))) ≡ utf8 "data: [DONE]"
unfolding chars
marker-trimmed = refl

openai_stream-wire_example :
    openai_stream ascii parse_hi
      (map (λ line. read line) wire ++ read (utf8 "data: [DONE]\n") ∷ broken (utf8 "closed") ∷ [])
    ≡ map (λ c. ok (openai_chunk c)) (hi ∷ hi ∷ []) ++ ok openai_done ∷ []
openai_stream-wire_example =
    openai_stream-wire ascii parse_hi render (utf8 "data: [DONE]\n") (broken (utf8 "closed") ∷ [])
      wire-Wires marker-trimmed
