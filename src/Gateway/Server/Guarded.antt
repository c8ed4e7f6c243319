-- ===== src/Gateway/Server/Guarded.antt =====
-- What a request without a key can do, and which requests reach the endpoint of completions.
use neu_rust.Prelude.{
  ◌≡◌, ◌&&◌, ◌⊎◌, none, some, true, false, refl, arith, inl, inr, List, Bool, is_some, Option-cases,
  Bool-cases, is_empty, any, and-left, and-right, ap, Option, ◌∷◌, ◌||◌, [], filter,
}
use neu_rust.Prelude.Keys.{nat_eq, text_eq}
use neu_rust.Prelude.Text.{Str, utf8, str_eq, str_eq_iff}
use neu_rust.Gateway.Auth.{
  ClientIdentity, ApiKeyEntry, auth_middleware, Verdict, is_open_path, extract_token, pass,
  unauthorized,
}
use neu_rust.Gateway.Auth.Laws.{is_pass, auth_middleware-pass_iff}
use neu_rust.Gateway.Inference.{Gateway, Clock}
use neu_rust.Gateway.Server.{
  Setup, routed, ServerRequest, Method, post, get, head, options, other, Route, route, api_routes,
  not_routed, refused, chat, Answer, Router, Endpoint, Arrival, respond, serve_all,
}

abbrev pub is_post : Method → Bool
is_post post = true
is_post _ = false

-- A refusal: no route, or the message of the check of the key.
abbrev pub IsRefusal : Answer → Type 0
IsRefusal answer = (answer ≡ not_routed) ⊎ ((message : Str) × (answer ≡ refused message))

pub Verdict-cases :
    (v : Verdict)
    → ((who : Option ClientIdentity) × (v ≡ pass who)) ⊎ ((m : Str) × (v ≡ unauthorized m))
Verdict-cases (pass who) = inl (who, refl)
Verdict-cases (unauthorized m) = inr (m, refl)

module _ {S C : Type 0} (setup : Setup S C) where
  -- With keys configured, a request for any but the three open paths that carries none of them is
  -- refused, and the gateway stays as it is: no provider is asked, nothing is counted, stored,
  -- published or recorded.
  pub routed-guarded :
      (keys : List ApiKeyEntry) (c : Clock) (q : ServerRequest) (g : Gateway S C)
      → setup.api_keys ≡ some keys
      → is_empty keys ≡ false
      → is_open_path q.headers.path ≡ false
      → ((t : Str) → extract_token q.headers ≡ some t → any (λ k. str_eq k.key t) keys ≡ false)
      → IsRefusal (routed setup c q g).0 × ((routed setup c q g).1 ≡ g)
  unfolding routed
  routed-guarded keys c q g set some_key closed unknown =
      elim (Option-cases (setup.router.find_route api_routes q.method q.headers.path)) [
        | inl nowhere ↦ rw (nowhere, routed) (inl refl, refl)
        | inr (r, found) ↦ elim (Verdict-cases (auth_middleware setup.api_keys q.headers)) [
          | inr (m, denied) ↦ rw (found, routed, denied) (inr (m, refl), refl)
          | inl (who, through) ↦
              absurd
                (elim ((auth_middleware-pass_iff keys q.headers some_key).0
                  (rw (← set, through) refl)) [
                    | inl opened ↦ ground arith
                    | inr (t, token, known) ↦ ground (arith, unknown t token)
                  ])
        ]
      ]

-- Whether a request may pass: it asks for an open path or carries one of the keys.
abbrev pub is_admitted : List ApiKeyEntry → Arrival → Bool
is_admitted keys a = is_open_path a.request.headers.path || elim (extract_token a.request.headers) [
  | none ↦ false
  | some t ↦ any (λ k. str_eq k.key t) keys
]

module _ {S C : Type 0} (setup : Setup S C) where
  refused_unchanged :
      (keys : List ApiKeyEntry) (a : Arrival) (g : Gateway S C)
      → setup.api_keys ≡ some keys
      → is_empty keys ≡ false
      → is_admitted keys a ≡ false
      → (respond setup a g).1 ≡ g
  unfolding respond
  refused_unchanged keys a g set some_key denied =
      (routed-guarded setup keys a.clock a.request g set some_key (ground arith)
        (λ t e. ground (arith, e, denied))).1

  -- Requests that carry no key and ask for no open path leave no trace: a server with keys that
  -- gets them among others comes to the same state as one that gets the others alone.
  pub serve_all-filter :
      (keys : List ApiKeyEntry) (arrivals : List Arrival) (g : Gateway S C)
      → setup.api_keys ≡ some keys
      → is_empty keys ≡ false
      → serve_all setup arrivals g ≡ serve_all setup (filter (is_admitted keys) arrivals) g
  unfolding serve_all
  serve_all-filter keys [] g set some_key = refl
  serve_all-filter keys (a ∷ rest) g set some_key = elim (Bool-cases (is_admitted keys a)) [
    | inl admitted ↦ rw admitted (serve_all-filter keys rest (respond setup a g).1 set some_key)
    | inr denied ↦
        rw (denied, refused_unchanged keys a g set some_key denied)
          (serve_all-filter keys rest g set some_key)
  ]

-- The requests that reach the endpoint of completions: POST to its path, let through, with a body
-- that can be read.
abbrev pub is_chat_call : {S C : Type 0} → Setup S C → ServerRequest → Bool
is_chat_call setup q =
    is_post q.method
    && (str_eq q.headers.path (utf8 "/v1/chat/completions")
        && (is_pass (auth_middleware setup.api_keys q.headers) && is_some (setup.json q.body)))

-- The route that is found for a request is that of completions exactly for a POST to its path.
abbrev pub is_chat : Endpoint → Bool
is_chat chat = true
is_chat _ = false

abbrev pub asks_chat : ServerRequest → Bool
asks_chat q = is_post q.method && str_eq q.headers.path (utf8 "/v1/chat/completions")

pub route_found :
    (router : Router) (q : ServerRequest) (r : Route)
    → router.find_route api_routes q.method q.headers.path ≡ some r
    → is_chat r.endpoint ≡ asks_chat q
route_found router q r found =
    let (member, path, method) = router.found api_routes q.method q.headers.path r found in
    ground arith

is_post-eq : (m : Method) → is_post m ≡ true → m ≡ post
is_post-eq post h = refl
is_post-eq get h = cc
is_post-eq head h = cc
is_post-eq options h = cc
is_post-eq other h = cc

pub route_missing :
    (router : Router) (q : ServerRequest)
    → router.find_route api_routes q.method q.headers.path ≡ none
    → asks_chat q ≡ false
route_missing router q missing = elim (Bool-cases (asks_chat q)) [
  | inr elsewhere ↦ elsewhere
  | inl asks ↦
      let path = utf8 "/v1/chat/completions" in
      let (s, found) = router.complete api_routes (route post path chat) (inl refl) in
      let method : q.method ≡ post =
        is_post-eq q.method (and-left (is_post q.method) (str_eq q.headers.path path) asks) in
      let here : q.headers.path ≡ path =
        (str_eq_iff q.headers.path path).0
          (and-right (is_post q.method) (str_eq q.headers.path path) asks) in
      absurd (
        ground (
          arith,
          missing,
          found,
          method,
          here,
          ap (λ (m : Method). router.find_route api_routes m q.headers.path) method,
          ap (λ (p : Str). router.find_route api_routes post p) here,
        ))
]
