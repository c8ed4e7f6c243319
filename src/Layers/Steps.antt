-- ===== src/Layers/Steps.antt =====
-- One layer of the pipeline at a time, and the providers behind a state that is shared.
use neu_rust.Prelude.{
  ◌≡◌, ◌∷◌, ◌⊎◌, ◌∙◌, [], none, some, inl, inr, refl, arith, map, reverse, List, Bool, Option, In,
  find, Bool-cases, Option-cases, ap,
}
use mathlib.Core.List.{reverse-cons}
use neu_rust.Prelude.Text.{Str}
use neu_rust.Contracts.{UnifiedRequest, UnifiedResponse}
use neu_rust.Layers.{Shared, behind}
use neu_rust.Routing.Pipeline.{
  Layer, before, after, select_provider, PipelineError, layer_on_request, layer_on_response,
  provider_not_found, no_provider_for_model,
}
use neu_rust.Routing.Provider.{Provider, get_by_name, get_provider, is_named, supports}

pub reverse_three : {A : Type 0} (a b c : A) → reverse (a ∷ b ∷ c ∷ []) ≡ c ∷ b ∷ a ∷ []
reverse_three a b c = simp (reverse-cons)

-- A layer that passes a response on, and one that fails.
pub after_passed :
    {S : Type 0} (l : Layer S) (ls : List (Layer S)) (r : UnifiedRequest) (a : UnifiedResponse)
    (s : S) {a' : UnifiedResponse} {s' : S}
    → l.on_response r a s ≡ (none, a', s')
    → after (l ∷ ls) r a s ≡ after ls r a' s'
unfolding after
after_passed {S} l ls r a s e =
    ap
      (λ (o : Option Str × UnifiedResponse × S). elim o.0 [
        | some e ↦ (some (layer_on_response l.name e), o.1, o.2)
        | none ↦ after ls r o.1 o.2
      ])
      e

pub after_failed :
    {S : Type 0} (l : Layer S) (ls : List (Layer S)) (r : UnifiedRequest) (a : UnifiedResponse)
    (s : S) {a' : UnifiedResponse} {s' : S} {text : Str}
    → l.on_response r a s ≡ (some text, a', s')
    → after (l ∷ ls) r a s ≡ (some (layer_on_response l.name text), a', s')
unfolding after
after_failed {S} l ls r a s e =
    ap
      (λ (o : Option Str × UnifiedResponse × S). elim o.0 [
        | some e ↦ (some (layer_on_response l.name e), o.1, o.2)
        | none ↦ after ls r o.1 o.2
      ])
      e

-- The same of a request.
pub before_passed :
    {S : Type 0} (l : Layer S) (ls : List (Layer S)) (r : UnifiedRequest) (s : S)
    {r' : UnifiedRequest} {s' : S}
    → l.on_request r s ≡ (none, r', s')
    → before (l ∷ ls) r s ≡ before ls r' s'
unfolding before
before_passed {S} l ls r s e =
    ap
      (λ (o : Option Str × UnifiedRequest × S). elim o.0 [
        | some e ↦ (some (layer_on_request l.name e), o.1, o.2)
        | none ↦ before ls o.1 o.2
      ])
      e

pub before_failed :
    {S : Type 0} (l : Layer S) (ls : List (Layer S)) (r : UnifiedRequest) (s : S)
    {r' : UnifiedRequest} {s' : S} {text : Str}
    → l.on_request r s ≡ (some text, r', s')
    → before (l ∷ ls) r s ≡ (some (layer_on_request l.name text), r', s')
unfolding before
before_failed {S} l ls r s e =
    ap
      (λ (o : Option Str × UnifiedRequest × S). elim o.0 [
        | some e ↦ (some (layer_on_request l.name e), o.1, o.2)
        | none ↦ before ls o.1 o.2
      ])
      e

-- The providers behind the shared state are found as they are.
find-behind :
    {E S : Type 0} (f : Provider (Shared E S) → Bool) (ps : List (Provider S))
    (q : Provider (Shared E S))
    → find f (map behind ps) ≡ some q
    → (p : Provider S) × (In p ps × (q ≡ behind p))
find-behind f [] q h = absurd (ground arith)
find-behind f (p ∷ ps) q h = elim (Bool-cases (f (behind p))) [
  | inl fits ↦ (p, (inl refl, ground arith))
  | inr unfit ↦
      let (p', (listed, same)) = find-behind f ps q (rw unfit at h) in (p', (inr listed, same))
]

abbrev pub IsMissing : PipelineError → Type 0
IsMissing e = ((n : Str) × (e ≡ provider_not_found n)) ⊎ ((m : Str) × (e ≡ no_provider_for_model m))

-- What is found of a provider: one of the list, or the error.
found-cases :
    {E S : Type 0} (f : Provider (Shared E S) → Bool) (ps : List (Provider S)) (e : PipelineError)
    → let out : Provider (Shared E S) ⊎ PipelineError = elim (find f (map behind ps)) [
      | some p ↦ inl p
      | none ↦ inr e
    ] in
      ((p : Provider S) × (In p ps × (out ≡ inl (behind p)))) ⊎ (out ≡ inr e)
found-cases {E} {S} f ps e = elim (Option-cases (find f (map behind ps))) [
  | inl nowhere ↦ inr (rw nowhere refl)
  | inr (q, found) ↦
      let (p, (listed, same)) = find-behind f ps q found in
      inl (p, (listed, rw found (ap inl same)))
]

pub select-cases :
    {E S : Type 0} (ps : List (Provider S)) (r : UnifiedRequest)
    → let out = select_provider {S = Shared E S} (map behind ps) r in
      ((p : Provider S) × (In p ps × (out ≡ inl (behind p))))
      ⊎ ((e : PipelineError) × (IsMissing e × (out ≡ inr e)))
unfolding select_provider get_by_name get_provider
select-cases {E} {S} ps r =
    let name = r.model.model_name in
    let chosen : Option Str → Provider (Shared E S) ⊎ PipelineError = λ o. elim o [
      | some pid ↦ elim (find (is_named pid) (map behind ps)) [
        | some p ↦ inl p
        | none ↦ inr (provider_not_found pid)
      ]
      | none ↦ elim (find (supports name) (map behind ps)) [
        | some p ↦ inl p
        | none ↦ inr (no_provider_for_model name)
      ]
    ] in
    elim (Option-cases r.model.provider_id) [
      | inl unnamed ↦ elim (found-cases {E = E} (supports name) ps (no_provider_for_model name)) [
        | inl (p, (listed, same)) ↦ inl (p, (listed, ap chosen unnamed ∙ same))
        | inr same ↦ inr (no_provider_for_model name, (inr (name, refl), ap chosen unnamed ∙ same))
      ]
      | inr (pid, named) ↦ elim (found-cases {E = E} (is_named pid) ps (provider_not_found pid)) [
        | inl (p, (listed, same)) ↦ inl (p, (listed, ap chosen named ∙ same))
        | inr same ↦ inr (provider_not_found pid, (inl (pid, refl), ap chosen named ∙ same))
      ]
    ]
