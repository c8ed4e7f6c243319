-- ===== src/Gateway/Readiness/Laws.antt =====
-- What the probe answers.
use neu_rust.Prelude.{
  ◌≡◌, ◌∷◌, ◌++◌, ◌||◌, ◌∙◌, if◌then◌else◌, [], refl, arith, true, false, Bool, List, any, map, sym,
}
use neu_rust.Gateway.Readiness.{readiness, collect, ProviderStatus, is_healthy, provider_status}
use neu_rust.Routing.Provider.{Provider}
use neu_rust.Prelude.Text.{Str}
use neu_rust.Contracts.{ProviderHealth}
use neu_rust.Routing.Health.Laws.{reports}
use mathlib.Core.List.{append-nil, append_assoc}

collect_lem :
    (flag : Bool) (statuses : List ProviderStatus) (rs : List (Str × ProviderHealth))
    → (collect flag statuses rs).0 ≡ (flag || any (λ r. is_healthy r.1.status) rs)
unfolding collect
collect_lem flag statuses [] = ground arith
collect_lem flag statuses (r ∷ rs) = ground (
  arith,
  collect_lem (if is_healthy r.1.status then true else flag) (statuses ++ provider_status r ∷ [])
      rs,
)

collect-providers :
    (flag : Bool) (statuses : List ProviderStatus) (rs : List (Str × ProviderHealth))
    → (collect flag statuses rs).1 ≡ statuses ++ map provider_status rs
unfolding collect
collect-providers flag statuses [] = sym (append-nil statuses)
collect-providers flag statuses (r ∷ rs) =
    collect-providers (if is_healthy r.1.status then true else flag)
      (statuses ++ provider_status r ∷ []) rs
    ∙ append_assoc statuses (provider_status r ∷ []) (map provider_status rs)

-- The probe answers 200 exactly if a provider reports to be healthy, and 503 otherwise; it lists
-- what every provider reports, in the order of their registration.
pub readiness_lem :
    {S : Type 0} (ps : List (Provider S)) (s : S)
    → ((readiness ps s).code
        ≡ (if any (λ r. is_healthy r.1.status) (reports ps s) then 200 else 503))
      × ((readiness ps s).providers ≡ map provider_status (reports ps s))
unfolding readiness
readiness_lem ps s =
    (rw (collect_lem false [] (reports ps s)) refl, collect-providers false [] (reports ps s))
