-- ===== src/Gateway/Auth/Manager.antt =====
-- `AuthManager` of crates/neurust-core/src/auth/mod.rs next to the middleware of the gateway.
use mathlib.Core.Option
use neu_rust.Prelude.{false, true, [], List, Option, Bool, get_or, is_empty, not}
use neu_rust.Gateway.Auth.{ApiKeyEntry, Validation, valid, invalid, panicked}
use neu_rust.StartUp.Config.{AuthConfig}

-- `AuthManager::from_config`; the entries of the manager have the fields of those configured.
unfoldable pub from_config : Option AuthConfig → List ApiKeyEntry
from_config section = get_or (Option.bind section (λ c. c.api_keys)) []

abbrev pub is_enabled : List ApiKeyEntry → Bool
is_enabled keys = not (is_empty keys)

abbrev pub is_valid : Validation → Bool
is_valid (valid name) = true
is_valid invalid = false
is_valid panicked = false
