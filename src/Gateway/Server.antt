-- ===== src/Gateway/Server.antt =====
-- The server, server.rs and routes/mod.rs: the routes, the middleware in front of them and what a
-- request comes to. The layers of the HTTP library around it, for CORS, the size of a body, the
-- time of a request and its trace, are left out: a request here is one that they let through.
pub mod Counts
pub mod Guarded
use neu_rust.Prelude.{
  ◌+◌, ◌/◌, ◌%◌, ◌≡◌, ◌⊎◌, ◌∷◌, ◌++◌, [], none, some, zero, suc, List, Option, ℕ, Bool, In, length,
  ltb, if◌then◌else◌,
}
use neu_rust.Prelude.Keys.{nat_eq, text_eq}
use neu_rust.Prelude.Text.{Str, utf8}
use neu_rust.Cache.Tiered.{Semantic}
use neu_rust.Cache.Key.{Hasher}
use neu_rust.Gateway.Auth.{ApiKeyEntry, HttpRequest, auth_middleware, pass, unauthorized}
use neu_rust.Gateway.Inference.{ChatCompletionRequest, Clock, Gateway, Reply, chat_completions}
use neu_rust.Gateway.Listing.{ModelObject, list_models, request_id_middleware}
use neu_rust.Gateway.Readiness.{ReadinessResponse, readiness}
use neu_rust.Routing.Health.{check_all}
use neu_rust.Routing.Provider.{Provider, ProviderConfig}
use neu_rust.Prelude.Decimal.{show_u64}

pub data Method : Type 0 where
  get head post options other : Method

-- The handlers.
pub data Endpoint : Type 0 where
  live_probe ready_probe metrics_page model_list chat : Endpoint

pub record Route : Type 0 where
  pub method : Method
  pub path : Str
  pub endpoint : Endpoint

abbrev pub route : Method → Str → Endpoint → Route
route method path endpoint = record { method = method; path = path; endpoint = endpoint }

abbrev pub inference_routes : List Route
inference_routes = route post (utf8 "/v1/chat/completions") chat ∷ []

abbrev pub health_routes : List Route
health_routes =
    route get (utf8 "/health/live") live_probe
    ∷ route get (utf8 "/health/ready") ready_probe
    ∷ route get (utf8 "/metrics") metrics_page
    ∷ []

abbrev pub model_routes : List Route
model_routes = route get (utf8 "/v1/models") model_list ∷ []

abbrev pub api_routes : List Route
api_routes = inference_routes ++ (health_routes ++ model_routes)

-- Whether a route for a method serves a request with another: that of GET serves HEAD too.
abbrev pub Serves : Method → Method → Type 0
Serves of asked = (of ≡ asked) ⊎ ((of ≡ get) × (asked ≡ head))

-- How the HTTP library chooses a route: by the path, which has no parameters here, and the method.
pub record Router : Type 0 where
  pub find_route : List Route → Method → Str → Option Route
  pub found :
      (rs : List Route) (m : Method) (p : Str) (r : Route)
      → find_route rs m p ≡ some r
      → In r rs × (r.path ≡ p) × Serves r.method m
  pub complete :
      (rs : List Route) (r : Route)
      → In r rs
      → (s : Route) × (find_route rs r.method r.path ≡ some s)

-- The text of /metrics.
abbrev pub metrics_text : (request_count error_count provider_count : ℕ) → Str
metrics_text request_count error_count provider_count =
    utf8 "# HELP neurust_requests_total Total number of requests processed.\n"
    ++ (utf8 "# TYPE neurust_requests_total counter\n"
        ++ (utf8 "neurust_requests_total "
            ++ (show_u64 request_count
                ++ (utf8 "\n\n# HELP neurust_errors_total Total number of errors.\n"
                    ++ (utf8 "# TYPE neurust_errors_total counter\n"
                        ++ (utf8 "neurust_errors_total "
                            ++ (show_u64 error_count
                                ++ (utf8
                                      "\n\n# HELP neurust_providers_registered Number of registered providers.\n"
                                    ++ (utf8 "# TYPE neurust_providers_registered gauge\n"
                                        ++ (utf8 "neurust_providers_registered "
                                            ++ (show_u64 provider_count ++ utf8 "\n")))))))))))

pub record ServerRequest : Type 0 where
  pub method : Method
  pub headers : HttpRequest
  pub x_request_id : Option Str
  pub body : Str

-- What a request comes to: no such route, a refusal, a body that is no request, or what a handler
-- answers.
pub data Answer : Type 0 where
  not_routed : Answer
  refused : Str → Answer
  live : Answer
  ready : ReadinessResponse → Answer
  metrics : Str → Answer
  listed : List ModelObject → Answer
  bad_body : Answer
  chatted : Reply → Answer

-- A request with the time and the id that it gets if it brings none.
pub record Arrival : Type 0 where
  pub clock : Clock
  pub fresh_id : Str
  pub request : ServerRequest

-- What the server is built from; `json` is the reading of a body.
pub record Setup (S C : Type 0) : Type 0 where
  pub sem : Semantic C
  pub hasher : Hasher
  pub configs : List ProviderConfig
  pub providers : List (Provider S)
  pub api_keys : Option (List ApiKeyEntry)
  pub json : Str → Option ChatCompletionRequest
  pub router : Router
  pub is_header : Str → Bool

module _ {S C : Type 0} (setup : Setup S C) where
  -- The handler of a route, behind the check of the key.
  unfoldable pub handle : Clock → Endpoint → ServerRequest → Gateway S C → Answer × Gateway S C
  handle c live_probe q g = (live, g)
  handle c ready_probe q g = (
    ready (readiness setup.providers g.world),
    record g { world = (check_all setup.providers [] g.world).1 },
  )
  handle c metrics_page q g =
      (metrics (metrics_text g.request_count g.error_count (length setup.providers)), g)
  handle c model_list q g = (listed (list_models setup.providers), g)
  handle c chat q g = elim (setup.json q.body) [
    | none ↦ (bad_body, g)
    | some r ↦
        let (reply, g') =
          chat_completions setup.sem setup.hasher setup.configs c setup.providers r g in
        (chatted reply, g')
  ]

  -- The routes with the check of the key, which `route_layer` puts before their handlers.
  unfoldable pub routed : Clock → ServerRequest → Gateway S C → Answer × Gateway S C
  unfolding handle
  routed c q g = elim (setup.router.find_route api_routes q.method q.headers.path) [
    | none ↦ (not_routed, g)
    | some r ↦ elim (auth_middleware setup.api_keys q.headers) [
      | unauthorized message ↦ (refused message, g)
      | pass who ↦ handle c r.endpoint q g
    ]
  ]

  -- The whole of `build_router`: the middleware for the id of the request is the outermost. The
  -- answer, and the header of the response.
  unfoldable pub respond : Arrival → Gateway S C → (Answer × Option Str) × Gateway S C
  unfolding routed
  respond a g =
      let (answer, g') = routed a.clock a.request g in
      let ids = request_id_middleware setup.is_header a.fresh_id a.request.x_request_id in
      ((answer, ids.1), g')

  -- One request after the other.
  unfoldable pub serve_all : List Arrival → Gateway S C → Gateway S C
  unfolding respond
  serve_all [] g = g
  serve_all (a ∷ rest) g = serve_all rest (respond a g).1
