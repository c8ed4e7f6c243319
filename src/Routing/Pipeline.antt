-- ===== src/Routing/Pipeline.antt =====
-- The pipeline, pipeline.rs: layers before and after the provider's answer.
pub mod Order
use neu_rust.Prelude.{
  ◌∷◌, ◌++◌, ◌⊎◌, if◌then◌else◌, [], inl, inr, none, some, List, Option, reverse,
}
use neu_rust.Prelude.Text.{Str}
use neu_rust.Contracts.{UnifiedResponse, UnifiedRequest, StreamChunk}
use neu_rust.Routing.Provider.{Provider, Result, get_by_name, ok, get_provider, err}

-- The trait `PipelineLayer`: what a call leaves of the state and of the request or the response,
-- and its error, if it fails.
pub record Layer (S : Type 0) : Type 0 where
  pub name : Str
  pub on_request : UnifiedRequest → S → Option Str × UnifiedRequest × S
  pub on_response : UnifiedRequest → UnifiedResponse → S → Option Str × UnifiedResponse × S

-- `with_context` keeps the cause beside what failed.
pub data PipelineError : Type 0 where
  layer_on_request : Str → Str → PipelineError
  layer_on_response : Str → Str → PipelineError
  provider_not_found : Str → PipelineError
  no_provider_for_model : Str → PipelineError
  stream_failed : Str → Str → PipelineError
  request_failed : Str → Str → PipelineError

pub data PipelineResult : Type 0 where
  complete : UnifiedResponse → PipelineResult
  stream : List (Result StreamChunk) → PipelineResult
  failed : PipelineError → PipelineResult

module _ {S : Type 0} where
  -- `add_layer`.
  unfoldable pub add_layer : List (Layer S) → Layer S → List (Layer S)
  add_layer layers l = layers ++ l ∷ []

  -- The first loop of `execute`.
  unfoldable pub before :
      List (Layer S) → UnifiedRequest → S → Option PipelineError × UnifiedRequest × S
  before [] r s = (none, r, s)
  before (l ∷ ls) r s =
      let (failure, r', s') = l.on_request r s in
      elim failure [ some e ↦ (some (layer_on_request l.name e), r', s') | none ↦ before ls r' s' ]

  -- The last loop of `execute`, over the layers in the order of their calls.
  unfoldable pub after :
      List (Layer S)
      → UnifiedRequest
      → UnifiedResponse
      → S
      → Option PipelineError × UnifiedResponse × S
  after [] r a s = (none, a, s)
  after (l ∷ ls) r a s =
      let (failure, a', s') = l.on_response r a s in
      elim failure [
        | some e ↦ (some (layer_on_response l.name e), a', s')
        | none ↦ after ls r a' s'
      ]

  -- The provider that the request names, or the first that supports its model; or the error.
  unfoldable pub select_provider : List (Provider S) → UnifiedRequest → Provider S ⊎ PipelineError
  select_provider ps r = elim r.model.provider_id [
    | some pid ↦ elim (get_by_name ps pid) [ some p ↦ inl p | none ↦ inr (provider_not_found pid) ]
    | none ↦ elim (get_provider ps r.model.model_name) [
      | some p ↦ inl p
      | none ↦ inr (no_provider_for_model r.model.model_name)
    ]
  ]

  -- The answer of a provider, through the layers.
  unfoldable pub finish :
      List (Layer S) → Provider S → UnifiedRequest → Result UnifiedResponse → S → PipelineResult × S
  unfolding after
  finish layers p r (err e) s = (failed (request_failed p.name e), s)
  finish layers p r (ok a) s =
      let (failure, a', s') = after (reverse layers) r a s in
      elim failure [ some e ↦ (failed e, s') | none ↦ (complete a', s') ]

  unfoldable pub call_provider :
      List (Layer S) → Provider S → UnifiedRequest → S → PipelineResult × S
  unfolding finish
  call_provider layers p r s =
      let (chunks, streamed) = p.complete_stream r s in
      let (answer, answered) = p.complete r s in
      if r.stream
      then elim chunks [
        | ok cs ↦ (stream cs, streamed)
        | err e ↦ (failed (stream_failed p.name e), streamed)
      ]
      else finish layers p r answer answered

  -- The result, and the request as the layers leave it.
  unfoldable pub execute :
      List (Layer S) → List (Provider S) → UnifiedRequest → S → PipelineResult × UnifiedRequest × S
  unfolding before select_provider call_provider
  execute layers ps r s =
      let (failure, r', s') = before layers r s in
      elim failure [
        | some e ↦ (failed e, r', s')
        | none ↦ elim (select_provider ps r') [
          | inr e ↦ (failed e, r', s')
          | inl p ↦ let (result, s'') = call_provider layers p r' s' in (result, r', s'')
        ]
      ]
