-- ===== src/Tests/Server.antt =====
-- The server at concrete inputs.
use neu_rust.Prelude.{
  ◌≡◌, ◌∷◌, ◌+◌, ◌&&◌, ◌||◌, ◌==◌, [], none, some, true, refl, arith, inl, inr, List, ℕ, Bool,
  Option, In, if◌then◌else◌, Bool-cases,
}
use neu_rust.Prelude.Text.{Str, utf8, str_eq, str_eq_iff}
use neu_rust.Prelude.Decimal.{digits_from, show_u64}
use neu_rust.Gateway.Server.{
  Method, get, head, post, options, other, Route, Router, Serves, Arrival, ServerRequest, Setup,
  serve_all, routed,
}
use neu_rust.Gateway.Auth.{auth_middleware, extract_token, match_key}
use neu_rust.Gateway.Server.Counts.{IsConsistent, chat_calls, serve_all-IsConsistent}
use neu_rust.Tests.Gateway.{at_once, no_semantic, gateway, configs, alice, call}
use neu_rust.Gateway.Server.Guarded.{IsRefusal, routed-guarded}
use neu_rust.Tests.Data.{sum_hash, servers}

abbrev number : Method → ℕ
number get = 0
number head = 1
number post = 2
number options = 3
number other = 4

abbrev route_fits : Method → Str → Route → Bool
route_fits m p r =
    ((number r.method == number m) || ((number r.method == 0) && (number m == 1)))
    && str_eq r.path p

route_fits_sound :
    (m : Method) (p : Str) (r : Route) → route_fits m p r ≡ true → (r.path ≡ p) × Serves r.method m
route_fits_sound m p r h = ground (arith, str_eq_iff r.path p)

route_fits_self : (r : Route) → route_fits r.method r.path r ≡ true
route_fits_self r = ground (arith, str_eq_iff r.path r.path)

abbrev pub first_route : List Route → Method → Str → Option Route
first_route [] m p = none
first_route (r ∷ rs) m p = if route_fits m p r then some r else first_route rs m p

pub first_route-found :
    (rs : List Route) (m : Method) (p : Str) (r : Route)
    → first_route rs m p ≡ some r
    → In r rs × (r.path ≡ p) × Serves r.method m
first_route-found [] m p r h = absurd (ground arith)
first_route-found (s ∷ rs) m p r h = elim (Bool-cases (route_fits m p s)) [
  | inl here ↦
      let same : s ≡ r = ground arith in
      let (path, method) = route_fits_sound m p s here in rw (← same) (inl refl, path, method)
  | inr there ↦
      let (member, path, method) = first_route-found rs m p r (rw there at h) in
      (inr member, path, method)
]

pub first_route_complete :
    (rs : List Route) (r : Route)
    → In r rs
    → (s : Route) × (first_route rs r.method r.path ≡ some s)
first_route_complete [] r h = absurd h
first_route_complete (s ∷ rs) r (inl here) = (r, rw (← here, route_fits_self r) refl)
first_route_complete (s ∷ rs) r (inr later) = elim (Bool-cases (route_fits r.method r.path s)) [
  | inl fit ↦ (s, rw fit refl)
  | inr unfit ↦ rw unfit (first_route_complete rs r later)
]

abbrev pub router : Router
router = record {
  find_route = first_route;
  found = first_route-found;
  complete = first_route_complete;
}

abbrev setup : Setup ℕ ℕ
setup = record {
  sem = no_semantic;
  hasher = sum_hash;
  configs = configs;
  providers = servers;
  api_keys = some (alice ∷ []);
  json = λ s. if str_eq s (utf8 "call") then some call else none;
  router = router;
  is_header = λ s. true;
}

abbrev asking : Option Str → Str → ServerRequest
asking key path = record {
  method = post;
  headers = record { path = path; authorization = none; x_api_key = key };
  x_request_id = none;
  body = utf8 "call";
}

abbrev chat_path : Str
chat_path = utf8 "/v1/chat/completions"

routed-guarded_example :
    IsRefusal (routed setup at_once (asking (some (utf8 "sk-2")) chat_path) gateway).0
    × ((routed setup at_once (asking (some (utf8 "sk-2")) chat_path) gateway).1 ≡ gateway)
unfolding extract_token
routed-guarded_example =
    routed-guarded setup (alice ∷ []) at_once (asking (some (utf8 "sk-2")) chat_path) gateway refl
      refl refl (λ t e. ground arith)

abbrev arrival : Option Str → Str → Arrival
arrival key path = record { clock = at_once; fresh_id = utf8 "id"; request = asking key path }

-- A call, one without a key, one that is not routed, and the same call again.
abbrev pub arrivals : List Arrival
arrivals =
    arrival (some (utf8 "sk-1")) chat_path
    ∷ arrival none chat_path
    ∷ arrival (some (utf8 "sk-1")) (utf8 "/metrics")
    ∷ arrival (some (utf8 "sk-1")) chat_path
    ∷ []

two_calls : chat_calls setup arrivals ≡ 2
unfolding auth_middleware extract_token match_key
two_calls = refl

serve_all-IsConsistent_example :
    IsConsistent (serve_all setup arrivals gateway)
    × ((serve_all setup arrivals gateway).request_count ≡ 0 + chat_calls setup arrivals)
serve_all-IsConsistent_example =
    serve_all-IsConsistent setup arrivals gateway (omega arith)
      (record { outcomes = omega arith; billed = omega arith })

show_u64_max : show_u64 0xffffffffffffffff ≡ utf8 "18446744073709551615"
unfolding digits_from
show_u64_max = refl
