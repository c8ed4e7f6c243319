-- ===== src/StartUp.antt =====
-- What the program builds from its configuration at the start, src/main.rs, and where it looks for
-- the configuration, crates/neurust-core/src/config.rs. The file system is an argument.
pub mod Boot
pub mod Config
pub mod Restart
use mathlib.Core.Option
use neu_rust.Prelude.{◌*◌, ◌∷◌, if◌then◌else◌, [], none, some, Bool, Option, ℕ, find, get_or}
use neu_rust.StartUp.Config.{
  ExactCacheConfig, CacheWarmingConfig, IntelligenceConfig, ObservabilityConfig,
}
use neu_rust.Cache.Exact.{new}
use neu_rust.Cache.Warming.{CacheWarmer, DumpFile}
use neu_rust.Cache.Tiered.{TieredCache, warm_tiers, new_tiered}
use neu_rust.Prelude.Text.{Str, utf8, str_eq}

-- `find_config_path`, with the test whether a file is there.
abbrev pub find_config_path : (Str → Bool) → Option Str
find_config_path exists = find exists (utf8 "neurust.yml" ∷ utf8 "config/neurust.yml" ∷ [])

-- The path that `main` takes.
abbrev pub config_path : (Str → Bool) → Str
config_path exists = get_or (find_config_path exists) (utf8 "config/neurust.yml")

abbrev pub seconds : ℕ → ℕ
seconds n = n * 1000000000

abbrev pub warmer_of : CacheWarmingConfig → Option CacheWarmer
warmer_of w =
    if w.enabled
    then some (record {
      dump_path = get_or w.dump_path (utf8 "./cache_dump.bin");
      dump_interval = get_or w.dump_interval_sec 300;
      max_warm_entries = get_or w.max_warm_entries 10000;
    })
    else none

abbrev pub build_cache : {S : Type 0} → ExactCacheConfig → ℕ → DumpFile → TieredCache S
build_cache config now file =
    (warm_tiers now
      (new_tiered (new (get_or config.max_entries 100000) (seconds (get_or config.ttl_sec 3600)))
        (Option.bind config.warming warmer_of))
      file).0

-- `init_cache`, from the section `intelligence`, the time in nanoseconds and the dump file. An
-- error of the warming is only logged.
unfoldable pub init_cache :
    {S : Type 0} → Option IntelligenceConfig → ℕ → DumpFile → Option (TieredCache S)
init_cache section now file =
    elim (Option.bind (Option.bind section (λ i. i.tiered_cache)) (λ c. c.exact_cache)) [
      | none ↦ none
      | some config ↦ if config.enabled then some (build_cache config now file) else none
    ]

-- `init_event_store`, with the feature for SQLite: the store that is opened, or none, also after an
-- error; the state then keeps the store in memory.
unfoldable pub init_event_store :
    {S : Type 0} (open_sqlite : Str → Option S) → Option ObservabilityConfig → Option S
init_event_store open_sqlite section = elim (Option.bind section (λ o. o.store)) [
  | none ↦ none
  | some config ↦ elim config.store_type [
    | none ↦ none
    | some kind ↦
        if str_eq kind (utf8 "sqlite")
        then open_sqlite (get_or config.sqlite_path (utf8 "./neurust_events.db"))
        else none
  ]
]

-- `resolve_api_key`; the environment is an argument.
abbrev pub resolve_api_key : (env : Str → Option Str) → Str → Option Str
resolve_api_key env env_var = env env_var
