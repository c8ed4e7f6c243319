-- ===== src/StartUp/Boot.antt =====
-- The start of the program as a whole: `main` of src/main.rs with `AppState` of state.rs, from a
-- configuration that has been read to a server that waits for requests.
pub mod Laws
use mathlib.Core.Option
use neu_rust.Prelude.{
  ◌≡◌, ◌<◌, ◌+◌, [], none, some, false, List, Option, ℕ, get_or, is_empty, length, filter, refl,
  arith, Bool,
}
use neu_rust.Prelude.Text.{Str}
use neu_rust.Prelude.Keys.{nat_eq, text_eq}
use neu_rust.StartUp.{init_cache, init_event_store}
use neu_rust.StartUp.Config.{NeuRustConfig}
use neu_rust.Cache.Key.{Hasher}
use neu_rust.Cache.Tiered.{Semantic, TieredCache}
use neu_rust.Cache.Warming.{DumpFile}
use neu_rust.Gateway.Auth.{ApiKeyEntry}
use neu_rust.Gateway.Inference.{Gateway, ChatCompletionRequest}
use neu_rust.Gateway.Server.{Setup, Router, Arrival, serve_all}
use neu_rust.Routing.Provider.{Provider, ProviderConfig, from_configs}

-- The state that all handlers share, without the sender of events. `T` is the event store behind
-- its interface.
pub record AppState (S C T : Type 0) : Type 0 where
  pub providers : List (Provider S)
  pub config : NeuRustConfig
  pub cache : Option (TieredCache C)
  pub event_store : T

-- `AppState::new`, with a new store in memory.
abbrev pub new_state :
    {S C T : Type 0} (in_memory : T) → List (Provider S) → NeuRustConfig → AppState S C T
new_state in_memory providers config = record {
  providers = providers;
  config = config;
  cache = none;
  event_store = in_memory;
}

abbrev pub with_cache : {S C T : Type 0} → TieredCache C → AppState S C T → AppState S C T
with_cache cache state = record state { cache = some cache }

abbrev pub with_event_store : {S C T : Type 0} → T → AppState S C T → AppState S C T
with_event_store store state = record state { event_store = store }

-- The two conditional steps of `main`.
abbrev pub add_cache : {S C T : Type 0} → Option (TieredCache C) → AppState S C T → AppState S C T
add_cache none state = state
add_cache (some cache) state = with_cache cache state

abbrev pub add_event_store : {S C T : Type 0} → Option T → AppState S C T → AppState S C T
add_event_store none state = state
add_event_store (some store) state = with_event_store store state

-- What `main` needs of its surroundings: the environment, the constructors of the two kinds of
-- providers, the stores, the clock and the dump file.
pub record Surroundings (S T : Type 0) : Type 0 where
  pub env : Str → Option Str
  pub openai : ProviderConfig → Str → Provider S
  pub anthropic : ProviderConfig → Str → Provider S
  pub open_sqlite : Str → Option T
  pub in_memory : T
  pub now : ℕ
  pub dump_file : DumpFile

-- What the server needs of libraries, and the state of the providers' world.
pub record Libraries (C : Type 0) : Type 0 where
  pub sem : Semantic C
  pub hasher : Hasher
  pub json : Str → Option ChatCompletionRequest
  pub router : Router
  pub is_header : Str → Bool

-- The keys that the middleware reads.
abbrev pub keys_of : NeuRustConfig → Option (List ApiKeyEntry)
keys_of config = Option.bind config.auth (λ a. a.api_keys)

module _ {S C T : Type 0} where
  -- `main` from the configuration on, up to `server::run`.
  abbrev pub boot : Surroundings S T → NeuRustConfig → AppState S C T
  boot around config =
      let providers = from_configs around.env around.openai around.anthropic config.providers in
      let state0 : AppState S C T = new_state around.in_memory providers config in
      add_event_store (init_event_store around.open_sqlite config.observability)
        (add_cache (init_cache config.intelligence around.now around.dump_file) state0)

  abbrev pub setup_of : Libraries C → AppState S C T → Setup S C
  setup_of libraries state = record {
    sem = libraries.sem;
    hasher = libraries.hasher;
    configs = state.config.providers;
    providers = state.providers;
    api_keys = keys_of state.config;
    json = libraries.json;
    router = libraries.router;
    is_header = libraries.is_header;
  }

  -- The gateway before the first request.
  abbrev pub started : S → AppState S C T → Gateway S C
  started world state = record {
    request_count = 0;
    error_count = 0;
    cache = state.cache;
    events = [];
    costs = [];
    lost = [];
    world = world;
  }

  -- A program that is started and then served requests.
  abbrev pub run_program :
      Surroundings S T → Libraries C → NeuRustConfig → S → List Arrival → Gateway S C
  run_program around libraries config world arrivals =
      let state = boot around config in
      serve_all (setup_of libraries state) arrivals (started world state)
