-- ===== src/Tests/Cache.antt =====
-- The cache at concrete inputs.
use neu_rust.Cache.Key.{to_le_bytes, compute_cache_key, compute_cache_key_shift}
use neu_rust.Prelude.{◌≡◌, ◌∷◌, [], refl, arith, true, false, none, some, Option, length, ℕ, ◌≢◌}
use neu_rust.Prelude.Keys.{nat_eq, text_eq}
use neu_rust.Prelude.Maps
use neu_rust.Cache.Exact.{get, ExactCache, new, live_entries, top_by_hit_count}
use neu_rust.Cache.Tiered.{lookup, store, Semantic, TieredCache}
use neu_rust.Tests.Data.{sum_hash, hello, question}
use neu_rust.Cache.Entry.{EntryMap, CacheEntry}
use neu_rust.Prelude.Maps.{Distinct, remove}
use neu_rust.Cache.Exact.Bounds.{IsBounded, run, insert_call, get_call, run-IsBounded}
use neu_rust.Cache.Eviction.Laws.{Evicts, evict_lfu-Evicts}
use neu_rust.Cache.Exact.Dump.{IsTop, top_by_hit_count-IsTop}
use neu_rust.Cache.Warming.{
  CacheWarmer, IoOutcome, LoopState, from_config, absent, corrupt, dump_loop, warm, dump, tick,
  dump_once, with_extension, tmp_path,
}
use neu_rust.Cache.Warming.RoundTrip.{IsReadable, dump_loop-IsReadable, warm-dump}
use neu_rust.Prelude.Text.{utf8, str_eq, str_eq_iff}
use neu_rust.Cache.Tiered.Laws.{lookup-store, lookup_promotes}
use neu_rust.Contracts.{
  UnifiedRequest, system_message_text, UnifiedResponse, last_user_message, system, user,
}
use neu_rust.Cache.Eviction.{evict_lfu, evict_lfu_batch, remove_expired, expired_keys}
use neu_rust.StartUp.{init_cache}
use neu_rust.StartUp.Config.{CacheWarmingConfig, ExactCacheConfig}
use neu_rust.StartUp.Restart.{section_of, init_cache-restart}
use neu_rust.Prelude.Sort.{sort_by}

abbrev entry : ℕ → ℕ → CacheEntry
entry hits ttl = record { response = hello; hit_count = hits; created_at = 0; ttl = ttl }

abbrev two_entries : EntryMap
two_entries = (1, entry 4 10) ∷ (2, entry 1 100) ∷ []

abbrev warm_cache : ExactCache
warm_cache = record { map = two_entries; max_entries = 3; default_ttl = 50 }

two_entries-Distinct : Distinct two_entries
unfolding Maps.lookup
two_entries-Distinct = (refl, (refl, tt))

run-IsBounded_example :
    IsBounded (run (new 1 50) (insert_call 0 1 hello ∷ insert_call 1 2 hello ∷ get_call 2 2 ∷ []))
run-IsBounded_example =
    run-IsBounded 1 50 (insert_call 0 1 hello ∷ insert_call 1 2 hello ∷ get_call 2 2 ∷ [])

evict_lfu-Evicts_example : Evicts 60 two_entries (evict_lfu 60 two_entries)
evict_lfu-Evicts_example = evict_lfu-Evicts 60 two_entries two_entries-Distinct (omega arith)

top_by_hit_count-IsTop_example :
    IsTop 1 (live_entries 5 two_entries) (top_by_hit_count 5 warm_cache 1)
top_by_hit_count-IsTop_example = top_by_hit_count-IsTop 5 warm_cache 1

abbrev warmer : CacheWarmer
warmer = from_config none none (some 2)

warm-dump_example :
    Maps.lookup 2 (warm 70 warmer (dump (top_by_hit_count 20 warm_cache 2)) (new 2 30)).0.map
    ≡ some (record { response = hello; hit_count = 1; created_at = 70; ttl = 30 })
unfolding from_config Maps.lookup
warm-dump_example =
    warm-dump 20 70 warmer warm_cache 2 30 2 (entry 1 100) two_entries-Distinct (omega arith)
      (omega arith) refl refl

abbrev torn : IoOutcome
torn = record { serialized = true; written = false; left_over = corrupt; renamed = true }

abbrev sound : IoOutcome
sound = record { serialized = true; written = true; left_over = corrupt; renamed = true }

abbrev started : LoopState
started = record { files = λ path. absent; failures = 0; backoffs = 0; stopped = false }

tmp-differs : str_eq (tmp_path warmer) warmer.dump_path ≡ false
unfolding from_config with_extension
tmp-differs = refl

tmp-apart : tmp_path warmer ≢ warmer.dump_path
tmp-apart e = ground (arith, tmp-differs, (str_eq_iff (tmp_path warmer) warmer.dump_path).1 e)

dump_loop-IsReadable_example : IsReadable (
    (dump_loop warmer started (tick 5 warm_cache torn ∷ tick 6 warm_cache sound ∷ [])).files
      warmer.dump_path)
dump_loop-IsReadable_example =
    dump_loop-IsReadable warmer started (tick 5 warm_cache torn ∷ tick 6 warm_cache sound ∷ [])
      tmp-apart tt

-- A dump at a path that ends in ".tmp" is its own temporary file: a write that fails spoils it.
abbrev own_tmp : CacheWarmer
own_tmp = record { dump_path = utf8 "./cache.tmp"; dump_interval = 300; max_warm_entries = 2 }

dump_once-spoils :
    (dump_once 5 own_tmp torn warm_cache (λ path. dump [])).0 own_tmp.dump_path ≡ corrupt
unfolding dump_once with_extension top_by_hit_count sort_by live_entries
dump_once-spoils = refl

-- A semantic tier that remembers one answer.
abbrev one_answer : Semantic (Option UnifiedResponse)
one_answer = record { lookup = λ now s q. (s, s); store = λ now s q a. some a }

abbrev tiers : TieredCache (Option UnifiedResponse)
tiers = record { exact = warm_cache; semantic = some (some hello); warmer = none }

lookup-store_example :
    (lookup one_answer sum_hash 25 (store one_answer sum_hash 20 tiers question hello) question).1
    ≡ some hello
lookup-store_example =
    lookup-store one_answer sum_hash 20 25 tiers question question hello (omega arith) refl

lookup_promotes_example :
    ((lookup one_answer sum_hash 20 tiers question).1 ≡ some hello)
    × ((get 25
          (lookup one_answer sum_hash 20 tiers question).0.exact
          (compute_cache_key sum_hash question)).1
        ≡ some hello)
unfolding get compute_cache_key Maps.lookup system_message_text last_user_message to_le_bytes
lookup_promotes_example =
    lookup_promotes one_answer sum_hash 20 25 tiers (some hello) question hello refl refl refl
      (omega arith)

-- "ab" of the system and "c" of the user, or "a" and "\nbc": the same bytes.
abbrev split_early : UnifiedRequest
split_early = record question {
  messages =
      record { role = system; content = utf8 "ab" }
      ∷ record { role = user; content = utf8 "c" }
      ∷ [];
}

abbrev split_late : UnifiedRequest
split_late = record question {
  messages =
      record { role = system; content = utf8 "a" }
      ∷ record { role = user; content = utf8 "bc" }
      ∷ [];
}

compute_cache_key_shift_example :
    compute_cache_key sum_hash split_early ≡ compute_cache_key sum_hash split_late
unfolding system_message_text last_user_message
compute_cache_key_shift_example =
    compute_cache_key_shift sum_hash split_early split_late
      (record { model_name = refl; turns = refl; temperature = refl; max_tokens = refl }) refl

abbrev restart_cache : ExactCache
restart_cache = record {
  map = (compute_cache_key sum_hash question, entry 3 100) ∷ [];
  max_entries = 5;
  default_ttl = 100;
}

abbrev restart_warming : CacheWarmingConfig
restart_warming = record {
  enabled = true;
  dump_path = none;
  dump_interval_sec = none;
  max_warm_entries = none;
}

abbrev restart_config : ExactCacheConfig
restart_config = record {
  enabled = true;
  max_entries = some 8;
  ttl_sec = some 2;
  warming = some restart_warming;
}

init_cache-restart_example :
    (t : TieredCache (Option UnifiedResponse)) × ((init_cache
          (section_of restart_config)
          500
          (dump (top_by_hit_count 20 restart_cache 10000))
        ≡ some t)
      × ((lookup one_answer sum_hash 600 t question).1 ≡ some hello))
unfolding compute_cache_key Maps.lookup system_message_text last_user_message to_le_bytes
init_cache-restart_example =
    init_cache-restart one_answer sum_hash restart_config restart_warming 20 500 600 restart_cache
      question (entry 3 100) refl refl refl (refl, tt) (omega arith) (omega arith) refl refl
      (omega arith)

-- With a count of 0 an expired entry goes all the same.
evict_lfu_batch_zero : length (evict_lfu_batch 60 0 two_entries) ≡ 1
unfolding evict_lfu_batch remove_expired expired_keys remove
evict_lfu_batch_zero = refl
