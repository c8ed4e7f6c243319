-- ===== src/Stores/Sqlite.antt =====
-- The event store over SQLite, store/sqlite_store.rs: the statements that it sends, and how it
-- reads their rows. The calls of the crate rusqlite are an interface; a lock is always given.
pub mod Laws
use neu_rust.Prelude.{
  ◌∷◌, ◌-◌, ◌*◌, ◌==◌, [], none, some, List, ℕ, Option, Bool, get_elem?, get_or, if◌then◌else◌, not,
  is_some, true, false, ◌/◌,
}
use mathlib.Core.Option
use neu_rust.Prelude.Text.{Str, utf8}
use neu_rust.Prelude.Float.{F64}
use neu_rust.Prelude.Int.{ℤ, pos}
use neu_rust.Contracts.{CostEvent}
use neu_rust.Stores.EventStore.{EventStore, MetricEntry, day_ms}
use neu_rust.Stores.Sql.{collect_rows, column, ◌>>=◌, Database, Param, word, signed, real, text}

abbrev pub insert_cost : Str
insert_cost =
    utf8
      "INSERT INTO cost_events (timestamp_ms, provider_id, model, prompt_tokens, completion_tokens, cost_usd, latency_ms, cached)\n             VALUES (?1, ?2, ?3, ?4, ?5, ?6, ?7, ?8)"

abbrev pub select_costs : Str
select_costs =
    utf8
      "SELECT timestamp_ms, provider_id, model, prompt_tokens, completion_tokens, cost_usd, latency_ms, cached\n             FROM cost_events ORDER BY timestamp_ms ASC"

abbrev pub select_days : Str
select_days =
    utf8
      "SELECT (timestamp_ms / ?1) AS day_key, SUM(cost_usd)\n             FROM cost_events\n             WHERE timestamp_ms >= ?2\n             GROUP BY day_key\n             ORDER BY day_key ASC"

abbrev pub select_metrics : Str
select_metrics =
    utf8 "SELECT timestamp_ms, metric_name, value, labels FROM metrics ORDER BY timestamp_ms ASC"

-- The schema that `migrate_sync` sends.
abbrev pub schema : Str
schema =
    utf8
      "\n            CREATE TABLE IF NOT EXISTS cost_events (\n                id INTEGER PRIMARY KEY AUTOINCREMENT,\n                timestamp_ms INTEGER NOT NULL,\n                provider_id TEXT NOT NULL,\n                model TEXT NOT NULL,\n                prompt_tokens INTEGER NOT NULL,\n                completion_tokens INTEGER NOT NULL,\n                cost_usd REAL NOT NULL,\n                latency_ms INTEGER NOT NULL,\n                cached INTEGER NOT NULL DEFAULT 0\n            );\n\n            CREATE INDEX IF NOT EXISTS idx_cost_events_timestamp\n                ON cost_events(timestamp_ms);\n\n            CREATE INDEX IF NOT EXISTS idx_cost_events_provider\n                ON cost_events(provider_id, model);\n\n            CREATE TABLE IF NOT EXISTS metrics (\n                id INTEGER PRIMARY KEY AUTOINCREMENT,\n                timestamp_ms INTEGER NOT NULL,\n                metric_name TEXT NOT NULL,\n                value REAL NOT NULL,\n                labels TEXT NOT NULL DEFAULT '{}'\n            );\n\n            CREATE INDEX IF NOT EXISTS idx_metrics_timestamp\n                ON metrics(timestamp_ms);\n\n            CREATE INDEX IF NOT EXISTS idx_metrics_name\n                ON metrics(metric_name);\n            "

-- `as i32` of a Boolean.
abbrev pub flag_number : Bool → ℤ
flag_number b = pos (if b then 1 else 0)

abbrev pub is_set : ℤ → Bool
is_set (pos n) = not (n == 0)
is_set _ = true

abbrev pub cost_params : CostEvent → List Param
cost_params e =
    word e.timestamp_ms
    ∷ text e.provider_id
    ∷ text e.model
    ∷ word e.prompt_tokens
    ∷ word e.completion_tokens
    ∷ real e.cost_usd
    ∷ word e.latency_ms
    ∷ signed (flag_number e.cached)
    ∷ []

module _ {S : Type 0} (db : Database S) where
  -- `migrate_sync`, `open` and `open_memory`; opening the file is the crate's.
  unfoldable pub migrate_sync : S → Option S
  migrate_sync s = db.send_batch schema s

  unfoldable pub open_memory : Option S → Option S
  unfolding migrate_sync
  open_memory connection = Option.bind connection migrate_sync

  unfoldable pub open_store : (connect : Str → Option S) → Str → Option S
  unfolding migrate_sync
  open_store connect path = do
    conn ← connect path
    ready ← db.send_batch (utf8 "PRAGMA journal_mode=WAL; PRAGMA synchronous=NORMAL;") conn
    migrate_sync ready

  unfoldable pub cost_event_of : List db.Cell → Option CostEvent
  cost_event_of cells = do
    timestamp_ms ← column db db.word_of cells 0
    provider_id ← column db db.text_of cells 1
    model ← column db db.text_of cells 2
    prompt_tokens ← column db db.word_of cells 3
    completion_tokens ← column db db.word_of cells 4
    cost_usd ← column db db.real_of cells 5
    latency_ms ← column db db.word_of cells 6
    cached ← column db db.signed_of cells 7
    some (record {
      timestamp_ms = timestamp_ms;
      provider_id = provider_id;
      model = model;
      prompt_tokens = prompt_tokens;
      completion_tokens = completion_tokens;
      cost_usd = cost_usd;
      latency_ms = latency_ms;
      cached = is_set cached;
    })

  -- A metric; `labels` reads the text of a JSON object of texts, which is empty if it is none.
  abbrev pub metric_of :
      (labels : Str → Option (List (Str × Str))) → List db.Cell → Option MetricEntry
  metric_of labels cells = do
    labels_json ← column db db.text_of cells 3
    timestamp_ms ← column db db.word_of cells 0
    metric_name ← column db db.text_of cells 1
    value ← column db db.real_of cells 2
    some (record {
      timestamp_ms = timestamp_ms;
      metric_name = metric_name;
      value = value;
      labels = get_or (labels labels_json) [];
    })

  -- The store as an `EventStore`.
  abbrev pub sqlite_store : (labels : Str → Option (List (Str × Str))) → EventStore S
  sqlite_store labels = record {
    record_cost = λ e s. db.send insert_cost (cost_params e) s;
    daily_costs = λ now days s.
        Option.bind (db.query select_days (word day_ms ∷ word (now - days * day_ms) ∷ []) s)
          (collect_rows (λ cells. column db db.real_of cells 1));
    all_cost_events = λ s. Option.bind (db.query select_costs [] s) (collect_rows cost_event_of);
    all_metrics = λ s. Option.bind (db.query select_metrics [] s) (collect_rows (metric_of labels));
    ping = λ s. is_some (db.send_batch (utf8 "SELECT 1") s);
  }
