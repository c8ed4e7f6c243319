-- ===== src/Stores/Postgres.antt =====
-- The event store over PostgreSQL, store/postgres_store.rs: the statements that it sends, and how
-- it reads their rows. The calls of the crate sqlx are an interface. Words are bound as signed
-- integers of their width; `none` is an error, or the panic of a column that cannot be read.
pub mod Laws
use neu_rust.Prelude.{◌∷◌, ◌-◌, ◌*◌, [], none, some, List, ℕ, Option, Bool, get_or, is_some, ◌/◌}
use mathlib.Core.Option
use neu_rust.Prelude.Text.{Str, utf8}
use neu_rust.Prelude.Int.{ℤ, pos, as_signed, as_unsigned, difference}
use neu_rust.Contracts.{CostEvent}
use neu_rust.Stores.EventStore.{EventStore, MetricEntry, day_ms}
use neu_rust.Stores.Sql.{Database, Param, signed, real, text, flag, column, ◌>>=◌, collect_rows}

-- The statements of `migrate`, in order.
abbrev pub migrations : List Str
migrations =
    utf8
      "\n            CREATE TABLE IF NOT EXISTS cost_events (\n                id BIGSERIAL PRIMARY KEY,\n                timestamp_ms BIGINT NOT NULL,\n                provider_id TEXT NOT NULL,\n                model TEXT NOT NULL,\n                prompt_tokens INTEGER NOT NULL,\n                completion_tokens INTEGER NOT NULL,\n                cost_usd DOUBLE PRECISION NOT NULL,\n                latency_ms BIGINT NOT NULL,\n                cached BOOLEAN NOT NULL DEFAULT FALSE\n            )\n            "
    ∷ utf8 "CREATE INDEX IF NOT EXISTS idx_cost_events_timestamp ON cost_events(timestamp_ms)"
    ∷ utf8 "CREATE INDEX IF NOT EXISTS idx_cost_events_provider ON cost_events(provider_id, model)"
    ∷ utf8
        "\n            CREATE TABLE IF NOT EXISTS metrics (\n                id BIGSERIAL PRIMARY KEY,\n                timestamp_ms BIGINT NOT NULL,\n                metric_name TEXT NOT NULL,\n                value DOUBLE PRECISION NOT NULL,\n                labels JSONB NOT NULL DEFAULT '{}'\n            )\n            "
    ∷ utf8 "CREATE INDEX IF NOT EXISTS idx_metrics_timestamp ON metrics(timestamp_ms)"
    ∷ utf8 "CREATE INDEX IF NOT EXISTS idx_metrics_name ON metrics(metric_name)"
    ∷ []

abbrev pub insert_event : Str
insert_event =
    utf8
      "INSERT INTO cost_events (timestamp_ms, provider_id, model, prompt_tokens, completion_tokens, cost_usd, latency_ms, cached)\n             VALUES ($1, $2, $3, $4, $5, $6, $7, $8)"

abbrev pub select_by_day : Str
select_by_day =
    utf8
      "SELECT (timestamp_ms / $1) AS day_key, SUM(cost_usd) AS total_cost\n             FROM cost_events\n             WHERE timestamp_ms >= $2\n             GROUP BY day_key\n             ORDER BY day_key ASC"

abbrev pub select_events : Str
select_events =
    utf8
      "SELECT timestamp_ms, provider_id, model, prompt_tokens, completion_tokens, cost_usd, latency_ms, cached\n             FROM cost_events ORDER BY timestamp_ms ASC"

abbrev pub all_metrics_query : Str
all_metrics_query =
    utf8 "SELECT timestamp_ms, metric_name, value, labels FROM metrics ORDER BY timestamp_ms ASC"

-- `as i64` and `as i32`, and back.
abbrev pub as_i64 : ℕ → ℤ
as_i64 n = as_signed 0x8000000000000000 n

abbrev pub as_i32 : ℕ → ℤ
as_i32 n = as_signed 0x80000000 n

abbrev pub as_u64 : ℤ → ℕ
as_u64 z = as_unsigned 0x8000000000000000 z

abbrev pub as_u32 : ℤ → ℕ
as_u32 z = as_unsigned 0x80000000 z

abbrev pub bound_values : CostEvent → List Param
bound_values e =
    signed (as_i64 e.timestamp_ms)
    ∷ text e.provider_id
    ∷ text e.model
    ∷ signed (as_i32 e.prompt_tokens)
    ∷ signed (as_i32 e.completion_tokens)
    ∷ real e.cost_usd
    ∷ signed (as_i64 e.latency_ms)
    ∷ flag e.cached
    ∷ []

module _ {S : Type 0} (db : Database S) where
  -- The statements one after the other, up to the first error.
  abbrev pub migrate_all : List Str → S → Option S
  migrate_all [] s = some s
  migrate_all (q ∷ qs) s = Option.bind (db.send q [] s) (migrate_all qs)

  -- `from_pool`, and `new` with the pool that the crate connects.
  unfoldable pub from_pool : S → Option S
  from_pool s = migrate_all migrations s

  unfoldable pub connect_store : (connect : Str → Option S) → Str → Option S
  unfolding from_pool
  connect_store connect url = Option.bind (connect url) from_pool

  -- The columns are read by name; a row has them in the order of the statement.
  unfoldable pub event_of : List db.Cell → Option CostEvent
  event_of cells = do
    timestamp_ms ← column db db.signed_of cells 0
    provider_id ← column db db.text_of cells 1
    model ← column db db.text_of cells 2
    prompt_tokens ← column db db.signed_of cells 3
    completion_tokens ← column db db.signed_of cells 4
    cost_usd ← column db db.real_of cells 5
    latency_ms ← column db db.signed_of cells 6
    cached ← column db db.flag_of cells 7
    some (record {
      timestamp_ms = as_u64 timestamp_ms;
      provider_id = provider_id;
      model = model;
      prompt_tokens = as_u32 prompt_tokens;
      completion_tokens = as_u32 completion_tokens;
      cost_usd = cost_usd;
      latency_ms = as_u64 latency_ms;
      cached = cached;
    })

  -- A metric; the JSON of the labels is read from its text, and is empty if it is no object of
  -- texts.
  abbrev pub metric_entry_of :
      (labels : Str → Option (List (Str × Str))) → List db.Cell → Option MetricEntry
  metric_entry_of labels cells = do
    labels_json ← column db db.text_of cells 3
    timestamp_ms ← column db db.signed_of cells 0
    metric_name ← column db db.text_of cells 1
    value ← column db db.real_of cells 2
    some (record {
      timestamp_ms = as_u64 timestamp_ms;
      metric_name = metric_name;
      value = value;
      labels = get_or (labels labels_json) [];
    })

  -- The store as an `EventStore`. The cutoff is a signed subtraction, which does not overflow.
  abbrev pub postgres_store : (labels : Str → Option (List (Str × Str))) → EventStore S
  postgres_store labels = record {
    record_cost = λ e s. db.send insert_event (bound_values e) s;
    daily_costs = λ now days s.
        Option.bind
          (db.query select_by_day
            (signed (pos day_ms) ∷ signed (difference (as_i64 now) (days * day_ms)) ∷ []) s)
          (collect_rows (λ cells. column db db.real_of cells 1));
    all_cost_events = λ s. Option.bind (db.query select_events [] s) (collect_rows event_of);
    all_metrics =
        λ s. Option.bind (db.query all_metrics_query [] s) (collect_rows (metric_entry_of labels));
    ping = λ s. is_some (db.send (utf8 "SELECT 1") [] s);
  }
