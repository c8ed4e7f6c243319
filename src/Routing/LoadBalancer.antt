-- ===== src/Routing/LoadBalancer.antt =====
-- The round-robin balancer, router/mod.rs. Its counter is a `usize` of 64 bits, that wraps.
pub mod Fairness
use neu_rust.Prelude.{
  ◌+◌, ◌%◌, ◌∷◌, ◌||◌, if◌then◌else◌, [], none, some, List, ℕ, filter, is_some, is_empty, get_elem?,
  length,
}
use neu_rust.Routing.Provider.{Provider, supports}
use neu_rust.Prelude.Text.{Str}
use neu_rust.Contracts.{UnifiedRequest}

abbrev pub usize_mod : ℕ
usize_mod = 0x10000000000000000

-- The choice among the providers found.
unfoldable pub balance_among :
    {S : Type 0} → List (Provider S) → ℕ → UnifiedRequest → ℕ × UnifiedRequest
balance_among found counter r =
    if is_some r.model.provider_id || is_empty found
    then (counter, r)
    else elim (get_elem? found (counter % length found)) [
      | none ↦ ((counter + 1) % usize_mod, r)
      | some p ↦ (
        (counter + 1) % usize_mod,
        record r { model = record (r.model) { provider_id = some p.name } },
      )
    ]

module _ {S : Type 0} (providers : List (Provider S)) where
  unfoldable pub matching : Str → List (Provider S)
  matching model = filter (supports model) providers

  -- `on_request`: the counter and the request after it. It never fails.
  unfoldable pub balance : ℕ → UnifiedRequest → ℕ × UnifiedRequest
  unfolding matching balance_among
  balance counter r = balance_among (matching r.model.model_name) counter r

  -- The providers of a series of requests, one after the other.
  unfoldable pub balance_all : ℕ → List UnifiedRequest → List UnifiedRequest
  balance_all counter [] = []
  balance_all counter (r ∷ rs) =
      let (counter', r') = balance counter r in r' ∷ balance_all counter' rs
