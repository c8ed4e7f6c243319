-- ===== src/Gateway/Listing.antt =====
-- The list of models, routes/models.rs, and the ids of requests, middleware/request_id.rs.
use neu_rust.Prelude.{map, if◌then◌else◌, none, some, Bool, Option, List, get_or}
use neu_rust.Prelude.Text.{Str}
use neu_rust.Routing.Provider.{all_models, Provider}

-- The fields of an entry that are not fixed.
pub record ModelObject : Type 0 where
  pub id : Str
  pub owned_by : Str

unfoldable pub list_models : {S : Type 0} → List (Provider S) → List ModelObject
unfolding all_models
list_models providers = map (λ m. record { id = m.0; owned_by = m.1 }) (all_models providers)

-- The id of a request: that of its header, or a new one.
abbrev pub request_id : (fresh : Str) → Option Str → Str
request_id fresh header = get_or header fresh

-- The middleware: the id that the handler sees, and the header of the response, if the id can
-- stand in one.
abbrev pub request_id_middleware :
    (is_header : Str → Bool) (fresh : Str) → Option Str → Str × Option Str
request_id_middleware is_header fresh header =
    let id = request_id fresh header in (id, if is_header id then some id else none)
