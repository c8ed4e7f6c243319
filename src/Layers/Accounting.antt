-- ===== src/Layers/Accounting.antt =====
-- What a call through the pipeline with the three layers costs, on every branch.
use neu_rust.Prelude.{
  ◌≡◌, ◌∷◌, ◌⊎◌, [], none, some, true, false, inl, inr, reverse, List, ℕ, Bool, Option, In,
  Option-cases, ap, ◌∙◌, sym, refl, if-cases, if◌then◌else◌, not, Bool-cases, map,
}
use neu_rust.Prelude.Text.{Str, utf8}
use neu_rust.Prelude.Float.{Arithmetic}
use neu_rust.Prelude.Unicode.{Unicode}
use neu_rust.Contracts.{Value, UnifiedRequest, UnifiedResponse, StreamChunk}
use neu_rust.Layers.Steps.{
  after_passed, after_failed, before_passed, before_failed, reverse_three, IsMissing, select-cases,
}
use neu_rust.Layers.{Shared, budget_layer, tracker_layer, masker_layer, tracked, masked, behind}
use neu_rust.Observability.Budget
use neu_rust.Observability.Budget.{BudgetManagerConfig, should_block}
use neu_rust.Observability.Tracker.{track}
use neu_rust.Routing.Pipeline.{
  Layer, after, PipelineResult, complete, stream, failed, layer_on_request, layer_on_response,
  provider_not_found, no_provider_for_model, stream_failed, request_failed, PipelineError, before,
  call_provider, finish, select_provider, execute,
}
use neu_rust.Routing.Provider.{Provider, ok, err, Result}
use neu_rust.Security.Masker
use neu_rust.Security.Masker.{PiiMasker}
use neu_rust.Stores.EventStore.{EventStore}
use mathlib.Core.Path.{subst}

module _ {E S : Type 0} (ar : Arithmetic) (as_bool : Value → Option Bool) (store : EventStore E)
    (now : ℕ) (u : Unicode) (masker : PiiMasker) (config : BudgetManagerConfig)
    (refusal : Str) where
  abbrev on_masker : Layer (Shared E S)
  on_masker = masker_layer ar u masker

  abbrev on_budget : Layer (Shared E S)
  on_budget = budget_layer ar config refusal

  abbrev on_tracker : Layer (Shared E S)
  on_tracker = tracker_layer ar as_bool store now

  abbrev pub layers : List (Layer (Shared E S))
  layers = on_masker ∷ on_budget ∷ on_tracker ∷ []

  -- Nothing is booked.
  abbrev Unbooked : Shared E S → Shared E S → Type 0
  Unbooked s s' = (s'.spend_micro ≡ s.spend_micro) × (s'.store ≡ s.store)

  -- An answer of a provider is booked: in the spending, and as what the tracker records of it.
  abbrev Booked : UnifiedRequest → UnifiedResponse → Shared E S → Shared E S → Type 0
  Booked r' b s s' =
      (s'.spend_micro ≡ Budget.on_response ar config s.spend_micro b)
      × (track ar as_bool store now r' b s.store ≡ some s'.store)

  -- The request that a provider gets: masked, with the budget that remains, which is not spent.
  abbrev Prepared : UnifiedRequest → Shared E S → UnifiedRequest → Type 0
  Prepared r s r' =
      (m : UnifiedRequest) × ((Masker.on_request u ar masker r ≡ some m)
        × ((r' ≡ (Budget.on_request ar config s.spend_micro m).0)
            × (should_block ar config s.spend_micro ≡ false)))

  abbrev Answered : UnifiedRequest → UnifiedResponse → Provider S → Shared E S → Shared E S → Type 0
  Answered r' b p s s' = p.complete r' s.world ≡ (ok b, s'.world)

  -- What is so after a call, by its result.
  abbrev pub Outcome :
      List (Provider S)
      → UnifiedRequest
      → Shared E S
      → PipelineResult
      → UnifiedRequest
      → Shared E S
      → Type 0
  Outcome ps r s (complete a) r' s' =
      Prepared r s r'
      × ((r'.stream ≡ false)
          × ((p : Provider S) × (In p ps
                × ((b : UnifiedResponse) × (Answered r' b p s s'
                      × (Booked r' b s s' × (Masker.on_response u ar masker b ≡ some a)))))))
  Outcome ps r s (stream chunks) r' s' =
      Prepared r s r'
      × ((r'.stream ≡ true)
          × ((p : Provider S) × (In p ps
                × ((p.complete_stream r' s.world ≡ (ok chunks, s'.world)) × Unbooked s s'))))
  Outcome ps r s (failed (layer_on_response n e)) r' s' =
      Prepared r s r'
      × ((p : Provider S) × (In p ps
            × ((b : UnifiedResponse) × (Answered r' b p s s'
                  × ((Unbooked s s' × (track ar as_bool store now r' b s.store ≡ none))
                      ⊎ (Booked r' b s s' × (Masker.on_response u ar masker b ≡ none)))))))
  Outcome ps r s (failed (request_failed n e)) r' s' =
      Prepared r s r'
      × ((p : Provider S) × (In p ps
            × ((p.complete r' s.world ≡ (err e, s'.world)) × Unbooked s s')))
  Outcome ps r s (failed (stream_failed n e)) r' s' =
      Prepared r s r'
      × ((p : Provider S) × (In p ps
            × ((p.complete_stream r' s.world ≡ (err e, s'.world)) × Unbooked s s')))
  Outcome ps r s (failed (layer_on_request n e)) r' s' =
      (s' ≡ s)
      × ((Masker.on_request u ar masker r ≡ none) ⊎ (should_block ar config s.spend_micro ≡ true))
  Outcome ps r s (failed (provider_not_found e)) r' s' = s' ≡ s
  Outcome ps r s (failed (no_provider_for_model e)) r' s' = s' ≡ s

  abbrev booked : UnifiedResponse → Shared E S → E → Shared E S
  booked b s t = record s { spend_micro = Budget.on_response ar config s.spend_micro b; store = t }

  -- The layers after the answer, by what the store and the masker make of it.
  abbrev after_with :
      UnifiedResponse
      → Shared E S
      → Option E
      → Option UnifiedResponse
      → Option PipelineError × UnifiedResponse × Shared E S
  after_with b s none masked = (some (layer_on_response (utf8 "cost-tracker") (utf8 "store")), b, s)
  after_with b s (some t) none =
      (some (layer_on_response (utf8 "pii-masker") (utf8 "panic")), b, booked b s t)
  after_with b s (some t) (some a) = (none, a, booked b s t)

  after_in_turn :
      (r' : UnifiedRequest) (b : UnifiedResponse) (s : Shared E S)
      → after (on_tracker ∷ on_budget ∷ on_masker ∷ []) r' b s
        ≡ after_with b s
            (track ar as_bool store now r' b s.store)
            (Masker.on_response u ar masker b)
  unfolding after
  after_in_turn r' b s = elim (Option-cases (track ar as_bool store now r' b s.store)) [
    | inl lost ↦
        after_failed on_tracker (on_budget ∷ on_masker ∷ []) r' b s (ap (tracked ar b s) lost)
        ∙ sym (ap (λ o. after_with b s o (Masker.on_response u ar masker b)) lost)
    | inr (t, kept) ↦ elim (Option-cases (Masker.on_response u ar masker b)) [
      | inl panic ↦
          after_passed on_tracker (on_budget ∷ on_masker ∷ []) r' b s (ap (tracked ar b s) kept)
          ∙ after_failed on_masker [] r' b (booked b s t) (ap (masked ar b (booked b s t)) panic)
          ∙ sym (
              ap (λ o. after_with b s o (Masker.on_response u ar masker b)) kept
              ∙ ap (after_with b s (some t)) panic)
      | inr (a, clean) ↦
          after_passed on_tracker (on_budget ∷ on_masker ∷ []) r' b s (ap (tracked ar b s) kept)
          ∙ after_passed on_masker [] r' b (booked b s t) (ap (masked ar b (booked b s t)) clean)
          ∙ sym (
              ap (λ o. after_with b s o (Masker.on_response u ar masker b)) kept
              ∙ ap (after_with b s (some t)) clean)
    ]
  ]

  after-layers :
      (r' : UnifiedRequest) (b : UnifiedResponse) (s : Shared E S)
      → after (reverse layers) r' b s
        ≡ after_with b s
            (track ar as_bool store now r' b s.store)
            (Masker.on_response u ar masker b)
  after-layers r' b s =
      ap (λ ls. after ls r' b s) (reverse_three on_masker on_budget on_tracker)
      ∙ after_in_turn r' b s

  -- The layers before the call, by what the masker makes of the request and by the budget.
  abbrev before_with :
      UnifiedRequest
      → Shared E S
      → Option UnifiedRequest
      → Bool
      → Option PipelineError × UnifiedRequest × Shared E S
  before_with r s none blocked = (some (layer_on_request (utf8 "pii-masker") (utf8 "panic")), r, s)
  before_with r s (some m) true = (
    some (layer_on_request (utf8 "budget-manager") refusal),
    (Budget.on_request ar config s.spend_micro m).0,
    s,
  )
  before_with r s (some m) false = (none, (Budget.on_request ar config s.spend_micro m).0, s)

  before_budget :
      (r m : UnifiedRequest) (s : Shared E S)
      → before (on_budget ∷ on_tracker ∷ []) m s
        ≡ before_with r s (some m) (should_block ar config s.spend_micro)
  unfolding before Budget.on_request
  before_budget r m s =
      let m' = (Budget.on_request ar config s.spend_micro m).0 in
      let verdict : Bool → Option Str × UnifiedRequest × Shared E S =
        λ b. (if not b then none else some refusal, m', s) in
      elim (Bool-cases (should_block ar config s.spend_micro)) [
        | inl blocked ↦
            before_failed on_budget (on_tracker ∷ []) m s (ap verdict blocked)
            ∙ sym (ap (before_with r s (some m)) blocked)
        | inr allowed ↦
            before_passed on_budget (on_tracker ∷ []) m s (ap verdict allowed)
            ∙ sym (ap (before_with r s (some m)) allowed)
      ]

  before-layers :
      (r : UnifiedRequest) (s : Shared E S)
      → before layers r s
        ≡ before_with r s (Masker.on_request u ar masker r) (should_block ar config s.spend_micro)
  before-layers r s = elim (Option-cases (Masker.on_request u ar masker r)) [
    | inl panic ↦
        before_failed on_masker (on_budget ∷ on_tracker ∷ []) r s (ap (masked ar r s) panic)
        ∙ sym (ap (λ o. before_with r s o (should_block ar config s.spend_micro)) panic)
    | inr (m, clean) ↦
        before_passed on_masker (on_budget ∷ on_tracker ∷ []) r s (ap (masked ar r s) clean)
        ∙ before_budget r m s
        ∙ sym (ap (λ o. before_with r s o (should_block ar config s.spend_micro)) clean)
  ]

  -- What is left of a call by the layers after the answer.
  abbrev conclude :
      Option PipelineError × UnifiedResponse × Shared E S → PipelineResult × Shared E S
  conclude (failure, a, s) = elim failure [ some e ↦ (failed e, s) | none ↦ (complete a, s) ]

  module _ (ps : List (Provider S)) (r r' : UnifiedRequest) (s : Shared E S)
      (prepared : Prepared r s r') (p : Provider S) (listed : In p ps) where
    booking-Outcome :
        (whole : r'.stream ≡ false) (b : UnifiedResponse) (world : S)
        → p.complete r' s.world ≡ (ok b, world)
        → (stored : Option E) (clean : Option UnifiedResponse)
        → track ar as_bool store now r' b s.store ≡ stored
        → Masker.on_response u ar masker b ≡ clean
        → let out = conclude (after_with b (record s { world = world }) stored clean) in
          Outcome ps r s out.0 r' out.1
    booking-Outcome whole b world answered none clean lost eq =
        (prepared, (p, (listed, (b, (answered, inl ((refl, refl), lost))))))
    booking-Outcome whole b world answered (some t) none kept panic =
        (prepared, (p, (listed, (b, (answered, inr ((refl, kept), panic))))))
    booking-Outcome whole b world answered (some t) (some a) kept clean =
        (prepared, (whole, (p, (listed, (b, (answered, ((refl, kept), clean)))))))

    finish-Outcome :
        (whole : r'.stream ≡ false) (answer : Result UnifiedResponse) (world : S)
        → p.complete r' s.world ≡ (answer, world)
        → let out = finish layers (behind p) r' answer (record s { world = world }) in
          Outcome ps r s out.0 r' out.1
    unfolding finish
    finish-Outcome whole (err e) world answered =
        (prepared, (p, (listed, (answered, (refl, refl)))))
    finish-Outcome whole (ok b) world answered =
        subst (λ o. let out = conclude o in Outcome ps r s out.0 r' out.1)
          (sym (after-layers r' b (record s { world = world })))
          (booking-Outcome whole b world answered (track ar as_bool store now r' b s.store)
            (Masker.on_response u ar masker b) refl refl)

    stream-Outcome :
        (streams : r'.stream ≡ true) (chunks : Result (List (Result StreamChunk))) (world : S)
        → p.complete_stream r' s.world ≡ (chunks, world)
        → let out : PipelineResult × Shared E S = elim chunks [
          | ok cs ↦ (stream cs, record s { world = world })
          | err e ↦ (failed (stream_failed p.name e), record s { world = world })
        ] in
          Outcome ps r s out.0 r' out.1
    stream-Outcome streams (ok cs) world answered =
        (prepared, (streams, (p, (listed, (answered, (refl, refl))))))
    stream-Outcome streams (err e) world answered =
        (prepared, (p, (listed, (answered, (refl, refl)))))

    call-Outcome : let out = call_provider layers (behind p) r' s in Outcome ps r s out.0 r' out.1
    unfolding call_provider
    call-Outcome =
        if-cases (λ (o : PipelineResult × Shared E S). Outcome ps r s o.0 r' o.1) r'.stream
          (λ streams. stream-Outcome streams _ _ refl) (λ whole. finish-Outcome whole _ _ refl)

  module _ (ps : List (Provider S)) (r : UnifiedRequest) (s : Shared E S) where
    -- The choice of a provider and its call.
    abbrev route :
        UnifiedRequest
        → Provider (Shared E S) ⊎ PipelineError
        → PipelineResult × UnifiedRequest × Shared E S
    route r' (inr e) = (failed e, r', s)
    route r' (inl p) = let (result, s') = call_provider layers p r' s in (result, r', s')

    missing-Outcome :
        (r' : UnifiedRequest) (e : PipelineError) → IsMissing e → Outcome ps r s (failed e) r' s
    missing-Outcome r' e (inl (n, same)) = rw same refl
    missing-Outcome r' e (inr (m, same)) = rw same refl

    route-Outcome :
        (r' : UnifiedRequest)
        → Prepared r s r'
        → let out = route r' (select_provider (map behind ps) r') in
          Outcome ps r s out.0 out.1 out.2
    route-Outcome r' prepared = elim (select-cases {E = E} ps r') [
      | inl (p, (listed, same)) ↦
          subst (λ o. let out = route r' o in Outcome ps r s out.0 out.1 out.2) (sym same)
            (call-Outcome ps r r' s prepared p listed)
      | inr (e, (missing, same)) ↦
          subst (λ o. let out = route r' o in Outcome ps r s out.0 out.1 out.2) (sym same)
            (missing-Outcome r' e missing)
    ]

    abbrev from_before :
        Option PipelineError × UnifiedRequest × Shared E S
        → PipelineResult × UnifiedRequest × Shared E S
    from_before (failure, r', s') = elim failure [
      | some e ↦ (failed e, r', s')
      | none ↦ elim (select_provider (map behind ps) r') [
        | inr e ↦ (failed e, r', s')
        | inl p ↦ let (result, s'') = call_provider layers p r' s' in (result, r', s'')
      ]
    ]

    prepare-Outcome :
        (clean : Option UnifiedRequest) (blocked : Bool)
        → Masker.on_request u ar masker r ≡ clean
        → should_block ar config s.spend_micro ≡ blocked
        → let out = from_before (before_with r s clean blocked) in Outcome ps r s out.0 out.1 out.2
    prepare-Outcome none blocked panic eq = (refl, inl panic)
    prepare-Outcome (some m) true clean blocked = (refl, inr blocked)
    prepare-Outcome (some m) false clean allowed = route-Outcome _ (m, (clean, (refl, allowed)))

    -- What a call through the masker, the budget manager and the tracker leaves, by its result. A
    -- panic of the masker on the request or a spent budget with a hard limit stops it: no provider
    -- is asked and nothing changes; nor does anything if no provider is found. A provider gets the
    -- masked request. A complete result is its answer, masked, which the spending and the store
    -- have booked. A stream, and a failure of the provider, leave both alone. A failure after an
    -- answer either is one of the store, and then neither has booked it, or is a panic of the
    -- masker, and then both have.
    pub execute-Outcome :
        let out = execute layers (map behind ps) r s in Outcome ps r s out.0 out.1 out.2
    unfolding execute
    execute-Outcome =
        subst (λ o. let out = from_before o in Outcome ps r s out.0 out.1 out.2)
          (sym (before-layers r s))
          (prepare-Outcome (Masker.on_request u ar masker r) (should_block ar config s.spend_micro)
            refl refl)
