-- ===== src/Routing/Health.antt =====
-- The health monitor, crates/neurust-core/src/router/health.rs: the round of checks and the table
-- of statuses. The clock that starts the rounds is left out.
pub mod Laws
use neu_rust.Prelude.{◌∷◌, [], List, Option, zero, suc, ℕ}
use neu_rust.Prelude.Keys.{text_eq, nat_eq}
use neu_rust.Prelude.Maps
use neu_rust.Prelude.Text.{Str}
use neu_rust.Contracts.{ProviderHealth}
use neu_rust.Routing.Provider.{Provider}

-- The statuses by the name of the provider.
abbrev pub Statuses : Type 0
Statuses = List (Str × ProviderHealth)

abbrev pub get_status : Statuses → Str → Option ProviderHealth
get_status m name = Maps.lookup name m

unfoldable pub check_all : {S : Type 0} → List (Provider S) → Statuses → S → Statuses × S
check_all [] m s = (m, s)
check_all (p ∷ ps) m s =
    let (health, s') = p.health_check s in check_all ps (Maps.insert p.name health m) s'

abbrev pub all_statuses : Statuses → Statuses
all_statuses m = m

-- The loop of the monitor, as many rounds as the clock has started.
unfoldable pub rounds : {S : Type 0} → ℕ → List (Provider S) → Statuses → S → Statuses × S
unfolding check_all
rounds zero ps m s = (m, s)
rounds (suc n) ps m s = let (m', s') = check_all ps m s in rounds n ps m' s'
