-- ===== src/StartUp/Restart.antt =====
-- A restart: the cache that is built at the start from the dump of the one before.
use mathlib.Core.Option
use neu_rust.Prelude.{
  true, false, refl, arith, ◌≡◌, ◌≤◌, ◌-◌, some, ℕ, Option, length, get_or, ◌∙◌, if◌then◌else◌,
  none, ap,
}
use neu_rust.Cache.Exact.{get, new, ExactCache, top_by_hit_count}
use neu_rust.Cache.Warming.{dump, CacheWarmer, DumpFile, warm}
use neu_rust.Cache.Tiered.{lookup, TieredCache, Semantic, warm_tiers, new_tiered}
use neu_rust.Prelude.Keys.{nat_eq, text_eq}
use neu_rust.Prelude.Maps
use neu_rust.StartUp.{init_cache, seconds, build_cache, warmer_of}
use neu_rust.StartUp.Config.{ExactCacheConfig, CacheWarmingConfig, IntelligenceConfig}
use neu_rust.Cache.Key.{Hasher, compute_cache_key}
use neu_rust.Cache.Entry.{CacheEntry, is_expired}
use neu_rust.Contracts.{UnifiedRequest}
use neu_rust.Cache.Tiered.Laws.{lookup_of_exact}
use neu_rust.Prelude.Text.{utf8}
use neu_rust.Cache.Warming.RoundTrip.{warm-dump}

-- The configuration with a section for the exact cache.
abbrev pub section_of : ExactCacheConfig → Option IntelligenceConfig
section_of config = some (record {
  tiered_cache = some (record { exact_cache = some config; semantic_cache = none });
  cost_router = none;
})

get_of_live :
    (now : ℕ) (c : ExactCache) (hash : ℕ) (e : CacheEntry)
    → Maps.lookup hash c.map ≡ some e
    → is_expired now e ≡ false
    → (get now c hash).1 ≡ some e.response
unfolding get
get_of_live now c hash e found live = rw (get, found, live) refl

-- The warmer of the section.
abbrev pub section_warmer : CacheWarmingConfig → CacheWarmer
section_warmer w = record {
  dump_path = get_or w.dump_path (utf8 "./cache_dump.bin");
  dump_interval = get_or w.dump_interval_sec 300;
  max_warm_entries = get_or w.max_warm_entries 10000;
}

init_cache-section :
    {S : Type 0} (config : ExactCacheConfig) (now : ℕ) (file : DumpFile)
    → config.enabled ≡ true
    → init_cache {S = S} (section_of config) now file ≡ some (build_cache config now file)
unfolding init_cache Option.bind
init_cache-section config now file on =
    ap (λ b. if b then some (build_cache config now file) else none) on

warmer_of-section :
    (config : ExactCacheConfig) (w : CacheWarmingConfig)
    → config.warming ≡ some w
    → w.enabled ≡ true
    → Option.bind config.warming warmer_of ≡ some (section_warmer w)
unfolding Option.bind
warmer_of-section config w warming warms =
    ap (λ o. Option.bind o warmer_of) warming
    ∙ ap (λ b. if b then some (section_warmer w) else none) warms

build_cache-exact :
    (S : Type 0) (config : ExactCacheConfig) (w : CacheWarmingConfig) (now : ℕ) (file : DumpFile)
    → config.warming ≡ some w
    → w.enabled ≡ true
    → (build_cache {S = S} config now file).exact
      ≡ (warm now
          (section_warmer w)
          file
          (new (get_or config.max_entries 100000) (seconds (get_or config.ttl_sec 3600)))).0
unfolding warm_tiers
build_cache-exact S config w now file warming warms =
    ap
      (λ o.
        (warm_tiers {S = S} now
          (new_tiered
            (new (get_or config.max_entries 100000) (seconds (get_or config.ttl_sec 3600))) o)
          file).0.exact)
      (warmer_of-section config w warming warms)

-- What warming made is live within the time to live.
is_expired_soon :
    (later start : ℕ) (e : CacheEntry)
    → e.created_at ≡ start
    → later - start ≤ e.ttl
    → is_expired later e ≡ false
is_expired_soon later start e made soon = ground arith

module _ {S : Type 0} (sem : Semantic S) (h : Hasher) where
  -- With the exact cache and its warming enabled, the start builds a cache from the dump of a cache
  -- of distinct hashes. A lookup of a request in it returns the response that the cache held for
  -- the request, if the entry had not expired when the cache was dumped, the dump and the new
  -- cache have room for all entries, and no more than the time to live has passed since the start.
  pub init_cache-restart :
      (config : ExactCacheConfig) (w : CacheWarmingConfig) (now start later : ℕ) (c : ExactCache)
      (r : UnifiedRequest) (e : CacheEntry)
      → config.enabled ≡ true
      → config.warming ≡ some w
      → w.enabled ≡ true
      → Maps.Distinct c.map
      → length c.map ≤ get_or w.max_warm_entries 10000
      → length c.map ≤ get_or config.max_entries 100000
      → Maps.lookup (compute_cache_key h r) c.map ≡ some e
      → is_expired now e ≡ false
      → later - start ≤ seconds (get_or config.ttl_sec 3600)
      → (t : TieredCache S) × ((init_cache
              (section_of config)
              start
              (dump (top_by_hit_count now c (get_or w.max_warm_entries 10000)))
            ≡ some t)
          × ((lookup sem h later t r).1 ≡ some e.response))
  init_cache-restart config w now start later c r e on warming warms d fits room found fresh soon =
      let file = dump (top_by_hit_count now c (get_or w.max_warm_entries 10000)) in
      let loaded : CacheEntry = record {
        response = e.response;
        hit_count = e.hit_count;
        created_at = start;
        ttl = seconds (get_or config.ttl_sec 3600);
      } in
      (
        build_cache config start file,
        (
          init_cache-section config start file on,
          lookup_of_exact sem h later (build_cache config start file) r e.response (
              ap (λ x. (get later x (compute_cache_key h r)).1)
                (build_cache-exact S config w start file warming warms)
              ∙ get_of_live later _ (compute_cache_key h r) loaded
                  (warm-dump now start (section_warmer w) c (get_or config.max_entries 100000)
                    (seconds (get_or config.ttl_sec 3600)) (compute_cache_key h r) e d fits room
                    found fresh)
                  (is_expired_soon later start loaded refl soon)),
        ),
      )
