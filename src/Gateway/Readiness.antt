-- ===== src/Gateway/Readiness.antt =====
-- The readiness probe, routes/health.rs: the loop over the results of the checks. The checks run
-- at once there; here each provider's result is what it reports in the order of the list, which
-- is also the order of the results.
pub mod Laws
use neu_rust.Prelude.{◌∷◌, ◌++◌, if◌then◌else◌, [], true, false, Bool, List, ℕ, Option}
use neu_rust.Contracts.{HealthStatus, ProviderHealth, healthy, degraded, down}
use neu_rust.Prelude.Text.{Str, utf8}
use neu_rust.Routing.Provider.{Provider}
use neu_rust.Routing.Health.Laws.{reports}

abbrev pub to_string : HealthStatus → Str
to_string healthy = utf8 "healthy"
to_string degraded = utf8 "degraded"
to_string down = utf8 "down"

abbrev pub is_healthy : HealthStatus → Bool
is_healthy healthy = true
is_healthy degraded = false
is_healthy down = false

pub record ProviderStatus : Type 0 where
  pub name : Str
  pub status : Str
  pub latency_ms : ℕ
  pub error : Option Str

abbrev pub provider_status : Str × ProviderHealth → ProviderStatus
provider_status (name, h) = record {
  name = name;
  status = to_string h.status;
  latency_ms = h.latency_ms;
  error = h.error;
}

-- The code of the response, its status and the providers.
pub record ReadinessResponse : Type 0 where
  pub code : ℕ
  pub status : Str
  pub providers : List ProviderStatus

-- The loop, with the flag and the statuses so far.
unfoldable pub collect :
    Bool → List ProviderStatus → List (Str × ProviderHealth) → Bool × List ProviderStatus
collect any_healthy statuses [] = (any_healthy, statuses)
collect any_healthy statuses (r ∷ rs) =
    collect (if is_healthy r.1.status then true else any_healthy)
      (statuses ++ provider_status r ∷ []) rs

unfoldable pub readiness : {S : Type 0} → List (Provider S) → S → ReadinessResponse
unfolding collect
readiness ps s =
    let (any_healthy, statuses) = collect false [] (reports ps s) in
    record {
      code = if any_healthy then 200 else 503;
      status = if any_healthy then utf8 "ready" else utf8 "not_ready";
      providers = statuses;
    }
