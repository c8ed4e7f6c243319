-- ===== src/Gateway/State/Laws.antt =====
-- The choice of a provider.
use neu_rust.Prelude.{
  ◌≡◌, ◌≤◌, ◌∷◌, [], arith, inl, inr, true, List, All, In, filter, Bool-cases, ◌↔◌, false, none,
  some, head?, any, All-of_In, All-In, In-of_In-filter, In-filter, Bool, length,
}
use neu_rust.Routing.Provider.{supports, ProviderConfig, Provider}
use neu_rust.Prelude.Sort.{
  IsOrder, IsSorted, sort_by, sort_by-IsSorted, All-sort_by, In-sort_by, length-sort_by,
}
use neu_rust.Prelude.Text.{Str}
use neu_rust.Gateway.State.{higher, priority, find_provider}
use mathlib.Core.Path.{subst}

head?-eq-none_iff : {A : Type 0} (xs : List A) → (head? xs ≡ none) ↔ (length xs ≡ 0)
head?-eq-none_iff [] = ground arith
head?-eq-none_iff (x ∷ xs) = ground arith

any-eq-false_iff :
    {A : Type 0} (p : A → Bool) (xs : List A) → (any p xs ≡ false) ↔ (length (filter p xs) ≡ 0)
any-eq-false_iff p [] = ground arith
any-eq-false_iff p (x ∷ xs) = ground (arith, any-eq-false_iff p xs)

module _ {S : Type 0} (configs : List ProviderConfig) where
  higher-IsOrder : IsOrder (higher {S = S} configs)
  higher-IsOrder = record { total = λ p q. ground arith; trans = λ p q r h k. ground arith }

  All-supports :
      (model : Str) (ps : List (Provider S))
      → All (λ p. supports model p ≡ true) (filter (supports model) ps)
  All-supports model [] = tt
  All-supports model (p ∷ ps) = elim (Bool-cases (supports model p)) [
    | inl served ↦ rw served (served, All-supports model ps)
    | inr other ↦ rw other (All-supports model ps)
  ]

  -- The provider supports the model, and no provider that does comes before it in priority.
  pub record IsBest (model : Str) (ps : List (Provider S)) (p : Provider S) : Type 0 where
    pub listed : In p ps
    pub served : supports model p ≡ true
    pub first : All (λ q. supports model q ≡ true → priority configs p ≤ priority configs q) ps

  head_of_sorted :
      (model : Str) (ps sorted : List (Provider S)) (p : Provider S)
      → head? sorted ≡ some p
      → IsSorted (higher configs) sorted
      → All (λ q. In q ps × (supports model q ≡ true)) sorted
      → ((q : Provider S) → In q ps → supports model q ≡ true → In q sorted)
      → IsBest model ps p
  head_of_sorted model ps [] p h order sound complete = cc
  head_of_sorted model ps (x ∷ rest) p h order sound complete =
      let same : x ≡ p = ground arith in
      subst (IsBest model ps) same (record {
        listed = sound.0.0;
        served = sound.0.1;
        first =
            All-of_In (λ q. supports model q ≡ true → priority configs x ≤ priority configs q) ps
              (λ q inside served. elim (complete q inside served) [
                | inl here ↦ rw here (omega arith)
                | inr later ↦
                    let le : higher configs x q ≡ true =
                      All-In (λ y. higher configs x y ≡ true) q rest order.0 later in
                    ground arith
              ]);
      })

  -- The provider found is listed and supports the model, and none that does comes before it.
  pub find_provider-IsBest :
      (providers : List (Provider S)) (model : Str) (p : Provider S)
      → find_provider configs providers model ≡ some p
      → IsBest model providers p
  unfolding find_provider
  find_provider-IsBest providers model p found =
      let served : List (Provider S) = filter (supports model) providers in
      head_of_sorted model providers (sort_by (higher configs) served) p found
        (sort_by-IsSorted (higher configs) higher-IsOrder served)
        (All-sort_by (higher configs) (λ q. In q providers × (supports model q ≡ true)) served
          (All-of_In (λ q. In q providers × (supports model q ≡ true)) served
            (λ q inside. In-of_In-filter (supports model) q providers inside)))
        (λ q inside ok.
          In-sort_by (higher configs) q served (In-filter (supports model) q providers inside ok))

  -- None is found exactly if none supports the model.
  pub find_provider-eq-none_iff :
      (providers : List (Provider S)) (model : Str)
      → (find_provider configs providers model ≡ none) ↔ (any (supports model) providers ≡ false)
  unfolding find_provider
  find_provider-eq-none_iff providers model =
      let served : List (Provider S) = filter (supports model) providers in
      ground (
        arith,
        head?-eq-none_iff (sort_by (higher configs) served),
        length-sort_by (higher configs) served,
        any-eq-false_iff (supports model) providers,
      )
