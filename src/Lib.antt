-- ===== src/Lib.antt =====
-- NeuRust, a gateway in front of providers of language models, and what makes it correct.
--
-- The program. A request comes in at the endpoint of chat completions. The middleware checks its
-- API key; the handler validates it, chooses a provider by model and priority, looks into a cache
-- of two tiers, asks the provider on a miss, stores the answer, records a cost and publishes an
-- event; a streamed answer is sent on chunk by chunk. The core crate has a second path for
-- programs that embed it: a pipeline of layers in front of a registry of providers, with a load
-- balancer and a fallback executor. The cache is dumped to disk and warmed from there.
--
-- The files, by part of the program.
--   Prelude and its children: tests on native numbers, lists, byte strings (Text), equality of
--     keys (Keys), association maps (Maps), a stable sort (Sort), the bits of a double (Float),
--     the characters of a text (Unicode).
--   Contracts: crates/neurust-core/src/contracts.rs.
--   Cache/Entry, Cache/Exact: crates/neurust-intel/src/cache/exact_cache.rs; `get`, `insert`,
--     `insert_with_ttl`, `insert_warm`, `top_by_hit_count`, `clear` under their names. What two of
--     them share, the loop that evicts, is `make_room`, with the five attempts as its fuel.
--   Cache/Eviction: cache/eviction.rs. Cache/Key: cache/cache_key.rs. Cache/Warming:
--     cache/warming.rs. Cache/Tiered: cache/mod.rs.
--   Routing/Provider: crates/neurust-core/src/provider/mod.rs. Routing/LoadBalancer: router/mod.rs.
--     Routing/Fallback: router/fallback.rs. Routing/Pipeline: pipeline.rs.
--   Gateway/Auth: crates/neurust-gateway/src/middleware/auth.rs and, of the core crate,
--     auth/mod.rs. Gateway/State: state.rs. Gateway/Inference, Gateway/Stream:
--     routes/inference.rs. Gateway/Readiness: routes/health.rs. Gateway/Listing:
--     routes/models.rs and middleware/request_id.rs. Gateway/Server: server.rs and
--     routes/mod.rs, with the text of /metrics. Gateway/Concurrent: the steps of the handler in
--     routes/inference.rs and of the tasks it spawns, in any order; Tally, Accounts and Progress
--     count what they do and how many are left. Routing/Health:
--     crates/neurust-core/src/router/health.rs.
--   Routing/OpenAi: crates/neurust-core/src/provider/openai.rs. Routing/Anthropic:
--     provider/anthropic.rs. Routing/Upstream: what both need of the HTTP library.
--     Routing/Mock: mock.rs.
--   Cache/SemanticCache: crates/neurust-intel/src/cache/semantic_cache.rs.
--   CostRouting/Bandit: router/bandit.rs. CostRouting/Complexity: router/complexity_gate.rs.
--     CostRouting/Auctioneer: router/cost_auctioneer.rs. CostRouting/Prices: router/price_db.rs.
--   Observability/Budget and Observability/Period: observability/budget_manager.rs.
--     Observability/Tracker: observability/cost_tracker.rs. Observability/Forecast:
--     observability/cost_forecaster.rs.
--   Security/Scan, Security/Numbers, Security/Emails, Security/Detector:
--     security/pii_detector.rs. Security/Masker: security/pii_masker.rs. Security/Guard:
--     security/prompt_guard.rs. Security/Audit: security/audit_logger.rs.
--   Stores/EventStore: the interface of the event stores in contracts.rs, with its laws.
--     Stores/Memory: store/mod.rs. Stores/Sqlite: store/sqlite_store.rs. Stores/Postgres:
--     store/postgres_store.rs. Stores/Sql: what both need of a database.
--   StartUp: src/main.rs and crates/neurust-core/src/config.rs; StartUp/Restart: the cache from
--     the dump of the run before. StartUp/Config: the sections of the configuration, of
--     crates/neurust-core/src/contracts.rs. StartUp/Boot: `main` up to `server::run`, with
--     `AppState` of state.rs.
--   Layers: observability/budget_manager.rs, observability/cost_tracker.rs and
--     security/pii_masker.rs as layers of the pipeline, over a state shared with the providers; a
--     panic of a layer is an error there.
--   Tests: the theorems at concrete inputs.
--
-- How the model reads the code. Strings are lists of their UTF-8 bytes, doubles their 64 bits,
-- times and durations nanoseconds; a JSON value is kept as its text. All clock readings of a call
-- are one value, which also says whether the event store records its cost; a cost that it does not
-- record is lost, and only a warning tells. A method that changes the state behind `&self` returns the new state. Calls are
-- one after the other, but for those of the endpoint of completions, whose steps Gateway/Concurrent
-- interleaves; interleavings inside a method of the cache or of a store are not modelled. A hash map is
-- an association list, and the order of its iteration is that of the list; the theorems hold for
-- every such list with distinct keys. Wrapping counters are taken modulo 2 ^ 64. A panic is a
-- value of its own. A provider, a layer or the semantic tier is a record of functions that pass
-- on a state of their own; the hash function is a record with the law that only the bytes count.
-- A stream is the list of its items; writing a chunk as JSON does not fail. Of the loops, those
-- over lists are recursions on the list, and the loop that evicts has the fuel of the source. The
-- detectors of personal data go through a text by position: their fuel is one more than the
-- length, and each round goes on by at least one. The tables of Unicode, single precision, the
-- embedding model, the HTTP library and the parsers are records of functions. A database and its
-- crate are a record of calls, with what SQL says of an insertion and of a selection in order. The
-- digits of a counter have the fuel 20, as many as a number of 64 bits has.
--
-- Not modelled: HTTP and JSON, which are other crates' code, with the layers for CORS, sizes, time
-- limits and traces, listening and shutdown; YAML; the ids and times of creation of replies.
pub mod Prelude
pub mod Contracts
pub mod Cache
pub mod Routing
pub mod Gateway
pub mod CostRouting
pub mod Observability
pub mod Security
pub mod Stores
pub mod StartUp
pub mod Layers
pub mod Tests
