-- ===== src/Routing/Health/Laws.antt =====
-- What the table says after a round of checks.
use neu_rust.Prelude.{◌≡◌, ◌∷◌, [], none, some, List, refl, arith}
use neu_rust.Prelude.Keys.{text_eq, nat_eq}
use neu_rust.Prelude.Maps
use neu_rust.Routing.Health.{check_all, Statuses, get_status}
use neu_rust.Routing.Provider.{Provider}
use neu_rust.Prelude.Text.{Str, str_eq_iff}
use neu_rust.Contracts.{ProviderHealth}

-- What the providers report, one after the other.
abbrev pub reports : {S : Type 0} → List (Provider S) → S → List (Str × ProviderHealth)
reports [] s = []
reports (p ∷ ps) s = (p.name, (p.health_check s).0) ∷ reports ps (p.health_check s).1

-- After a round over providers with distinct names, the status of each is what it reported in this
-- round, and a name that none has keeps the status that it had.
pub check_all-get_status :
    {S : Type 0} (ps : List (Provider S)) (m : Statuses) (s : S) (k : Str)
    → Maps.Distinct (reports ps s)
    → get_status (check_all ps m s).0 k
      ≡ (elim (Maps.lookup k (reports ps s)) [ none ↦ get_status m k | some h ↦ some h ])
unfolding check_all Maps.lookup
check_all-get_status [] m s k d = refl
check_all-get_status (p ∷ ps) m s k d = ground (
  arith,
  check_all-get_status ps (Maps.insert p.name (p.health_check s).0 m) (p.health_check s).1 k d.1,
  Maps.lookup-insert p.name k (p.health_check s).0 m,
  str_eq_iff p.name k,
  d.0,
)
