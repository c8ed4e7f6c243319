-- ===== src/Tests/StartUp.antt =====
-- The program from its start on, at a concrete configuration.
use mathlib.Core.Option
use neu_rust.Prelude.{◌≡◌, ◌∷◌, [], none, some, true, false, refl, ℕ, length, filter, if◌then◌else◌}
use neu_rust.Prelude.Text.{Str, utf8, str_eq}
use neu_rust.Prelude.Keys.{nat_eq, text_eq}
use neu_rust.Cache.Warming.{absent}
use neu_rust.Gateway.Auth.{extract_token, HttpRequest}
use neu_rust.Gateway.Server.Guarded.{is_admitted}
use neu_rust.StartUp.Config.{NeuRustConfig, ExactCacheConfig}
use neu_rust.StartUp.Boot.{Surroundings, Libraries, run_program}
use neu_rust.StartUp.Boot.Laws.{run_program-filter}
use neu_rust.StartUp.Restart.{section_of}
use neu_rust.Tests.Data.{sum_hash, server}
use neu_rust.Tests.Gateway.{alice, call, configs, no_semantic}
use neu_rust.Tests.Server.{arrivals, router}

-- Every key is set, and a store is its path.
abbrev around : Surroundings ℕ Str
around = record {
  env = λ name. some (utf8 "secret");
  openai = λ config key. server config.id true;
  anthropic = λ config key. server config.id false;
  open_sqlite = λ path. some path;
  in_memory = utf8 "memory";
  now = 50;
  dump_file = absent;
}

abbrev libraries : Libraries ℕ
libraries = record {
  sem = no_semantic;
  hasher = sum_hash;
  json = λ s. if str_eq s (utf8 "call") then some call else none;
  router = router;
  is_header = λ s. true;
}

abbrev small_cache : ExactCacheConfig
small_cache = record { enabled = true; max_entries = some 2; ttl_sec = some 1; warming = none }

abbrev config : NeuRustConfig
config = record {
  server = record {
    address = utf8 "127.0.0.1:8080";
    graceful_shutdown_sec = none;
    max_stream_buffer_tokens = none;
  };
  providers = configs;
  intelligence = section_of small_cache;
  security = none;
  observability = none;
  auth = some (record { api_keys = some (alice ∷ []); jwt = none });
}

-- One of the four has no key.
admitted_three : length (filter (is_admitted (alice ∷ [])) arrivals) ≡ 3
unfolding extract_token
admitted_three = refl

run_program-filter_example :
    run_program around libraries config 0 arrivals
    ≡ run_program around libraries config 0 (filter (is_admitted (alice ∷ [])) arrivals)
unfolding Option.bind
run_program-filter_example =
    run_program-filter around libraries config (alice ∷ []) 0 arrivals refl refl

abbrev with_key : HttpRequest
with_key = record {
  path = utf8 "/v1/models";
  authorization = some (utf8 "Bearer sk-1");
  x_api_key = none;
}
