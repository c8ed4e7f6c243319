-- ===== src/StartUp/Boot/Laws.antt =====
-- What holds of the program from its start on.
use neu_rust.Prelude.{◌≡◌, none, some, false, List, refl, is_empty, filter, ◌∙◌, Option}
use neu_rust.Prelude.Keys.{nat_eq, text_eq}
use neu_rust.StartUp.{init_cache, init_event_store}
use neu_rust.StartUp.Config.{NeuRustConfig}
use neu_rust.StartUp.Boot.{
  AppState, Surroundings, Libraries, boot, keys_of, setup_of, started, run_program, add_cache,
  add_event_store,
}
use neu_rust.Gateway.Auth.{ApiKeyEntry}
use neu_rust.Gateway.Server.{Arrival}
use neu_rust.Gateway.Server.Guarded.{is_admitted, serve_all-filter}
use neu_rust.Cache.Tiered.{TieredCache}

add_cache-config :
    {S C T : Type 0} (cache : Option (TieredCache C)) (state : AppState S C T)
    → (add_cache cache state).config ≡ state.config
add_cache-config none state = refl
add_cache-config (some cache) state = refl

add_event_store-config :
    {S C T : Type 0} (store : Option T) (state : AppState S C T)
    → (add_event_store store state).config ≡ state.config
add_event_store-config none state = refl
add_event_store-config (some store) state = refl

boot-config :
    {S T : Type 0} (C : Type 0) (around : Surroundings S T) (config : NeuRustConfig)
    → (boot {C = C} around config).config ≡ config
boot-config C around config =
    add_event_store-config (init_event_store around.open_sqlite config.observability) _
    ∙ add_cache-config (init_cache {S = C} config.intelligence around.now around.dump_file) _

-- A program that is started with keys in its configuration, whatever else that says, comes with any
-- requests to the state to which it comes with those alone that ask for an open path or carry one
-- of the keys: the others are neither counted nor answered by a provider, and change no cache and
-- leave no event and no cost.
pub run_program-filter :
    {S C T : Type 0} (around : Surroundings S T) (libraries : Libraries C) (config : NeuRustConfig)
    (keys : List ApiKeyEntry) (world : S) (arrivals : List Arrival)
    → keys_of config ≡ some keys
    → is_empty keys ≡ false
    → run_program around libraries config world arrivals
      ≡ run_program around libraries config world (filter (is_admitted keys) arrivals)
run_program-filter {S} {C} around libraries config keys world arrivals set some_key =
    let state = boot around config in
    serve_all-filter (setup_of libraries state) keys arrivals (started world state)
      (rw (boot-config C around config) set) some_key
