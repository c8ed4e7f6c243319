-- ===== src/Gateway/State.antt =====
-- The shared state of the gateway, state.rs, as far as it chooses a provider.
pub mod Laws
use neu_rust.Prelude.{◌∷◌, if◌then◌else◌, [], List, Bool, Option, ℕ, head?, leb, get_or, filter}
use neu_rust.Routing.Provider.{ProviderConfig, Provider, supports}
use neu_rust.Prelude.Text.{Str, str_eq}
use neu_rust.Prelude.Sort.{sort_by}

-- The priority of a provider by its name: the last entry of the configuration with that id, as a
-- `HashMap` keeps it; `u32::MAX` for none.
unfoldable pub priority_of : List ProviderConfig → Str → ℕ → ℕ
priority_of [] name found = found
priority_of (c ∷ cs) name found =
    priority_of cs name (if str_eq c.id name then get_or c.priority 0xffffffff else found)

module _ {S : Type 0} (configs : List ProviderConfig) where
  abbrev pub priority : Provider S → ℕ
  priority p = priority_of configs p.name 0xffffffff

  abbrev pub higher : Provider S → Provider S → Bool
  higher p q = leb (priority p) (priority q)

  unfoldable pub find_provider : List (Provider S) → Str → Option (Provider S)
  find_provider providers model = head? (sort_by higher (filter (supports model) providers))
