-- ===== src/Stores/Postgres/Laws.antt =====
-- The store over PostgreSQL keeps the events.
use neu_rust.Prelude.{
  ◌≡◌, ◌≤◌, ◌<◌, ◌∷◌, ◌∙◌, [], some, refl, arith, ap, sym, map, List, ℕ, Option, All,
}
use mathlib.Core.Option
use neu_rust.Prelude.Keys.{nat_eq, text_eq}
use neu_rust.Prelude.Maps
use neu_rust.Prelude.Text.{Str, utf8}
use neu_rust.Prelude.Decimal.{digits_from}
use neu_rust.Prelude.Int.{as_unsigned-as_signed, as_signed-le}
use neu_rust.Contracts.{CostEvent}
use neu_rust.Stores.EventStore.{IsChronological}
use neu_rust.Stores.Sql.{
  Database, Row, Shuffle, InOrder, insert_text, select_text, Shows, IsTable, zip, text, real,
  signed, flag, BothBelow, collect_rows,
}
use neu_rust.Stores.Sql.Laws.{shown_at, record_all, selected-record_all, All-Shuffle}
use neu_rust.Stores.Sqlite.Laws.{cost_columns}
use neu_rust.Stores.Postgres.{
  postgres_store, bound_values, event_of, insert_event, select_events, as_i64, as_i32, as_u64,
  as_u32,
}

insert_event-columns : insert_event ≡ insert_text (utf8 "$") cost_columns
unfolding digits_from
insert_event-columns = refl

select_events-columns : select_events ≡ select_text cost_columns
select_events-columns = refl

-- The words of an event fit their types, and its time is below 2 ^ 63.
pub record IsStorable (e : CostEvent) : Type 0 where
  pub time : e.timestamp_ms < 0x8000000000000000
  pub prompt : e.prompt_tokens < 0x100000000
  pub completion : e.completion_tokens < 0x100000000
  pub latency : e.latency_ms < 0x10000000000000000

as_u64-as_i64 : (n : ℕ) → n < 0x10000000000000000 → as_u64 (as_i64 n) ≡ n
as_u64-as_i64 n h = as_unsigned-as_signed 0x8000000000000000 n (omega arith)

as_u32-as_i32 : (n : ℕ) → n < 0x100000000 → as_u32 (as_i32 n) ≡ n
as_u32-as_i32 n h = as_unsigned-as_signed 0x80000000 n (omega arith)

first_chronological :
    (e : CostEvent) (es : List CostEvent)
    → IsStorable e
    → All IsStorable es
    → All
        (λ s.
          BothBelow (some (signed (as_i64 e.timestamp_ms))) (Maps.lookup (utf8 "timestamp_ms") s))
        (map (λ f. zip cost_columns (bound_values f)) es)
    → All (λ f. e.timestamp_ms ≤ f.timestamp_ms) es
unfolding Maps.lookup
first_chronological e [] v vs h = tt
first_chronological e (f ∷ es) v vs h = (
  as_signed-le 0x8000000000000000 e.timestamp_ms f.timestamp_ms v.time vs.0.time h.0,
  first_chronological e es v vs.1 h.1,
)

InOrder-IsChronological :
    (es : List CostEvent)
    → All IsStorable es
    → InOrder (utf8 "timestamp_ms") (map (λ e. zip cost_columns (bound_values e)) es)
    → IsChronological es
unfolding Maps.lookup
InOrder-IsChronological [] vs h = tt
InOrder-IsChronological (e ∷ es) vs h =
    (first_chronological e es vs.0 vs.1 h.0, InOrder-IsChronological es vs.1 h.1)

module _ {S : Type 0} (db : Database S) where
  event_of-Shows :
      (e : CostEvent) (cells : List db.Cell)
      → IsStorable e
      → Shows db cost_columns (zip cost_columns (bound_values e)) cells
      → event_of db cells ≡ some e
  unfolding event_of Option.bind Maps.lookup
  event_of-Shows e cells v h =
      let row = zip cost_columns (bound_values e) in
      let (x0, g0, h0) =
        shown_at db cost_columns row cells 0 _ (signed (as_i64 e.timestamp_ms)) h refl refl in
      let (x1, g1, h1) = shown_at db cost_columns row cells 1 _ (text e.provider_id) h refl refl in
      let (x2, g2, h2) = shown_at db cost_columns row cells 2 _ (text e.model) h refl refl in
      let (x3, g3, h3) =
        shown_at db cost_columns row cells 3 _ (signed (as_i32 e.prompt_tokens)) h refl refl in
      let (x4, g4, h4) =
        shown_at db cost_columns row cells 4 _ (signed (as_i32 e.completion_tokens)) h refl refl in
      let (x5, g5, h5) = shown_at db cost_columns row cells 5 _ (real e.cost_usd) h refl refl in
      let (x6, g6, h6) =
        shown_at db cost_columns row cells 6 _ (signed (as_i64 e.latency_ms)) h refl refl in
      let (x7, g7, h7) = shown_at db cost_columns row cells 7 _ (flag e.cached) h refl refl in
      rw
        (
          g0,
          h0,
          g1,
          h1,
          g2,
          h2,
          g3,
          h3,
          g4,
          h4,
          g5,
          h5,
          g6,
          h6,
          g7,
          h7,
          as_u64-as_i64 e.timestamp_ms (omega (arith, v.time)),
          as_u32-as_i32 e.prompt_tokens v.prompt,
          as_u32-as_i32 e.completion_tokens v.completion,
          as_u64-as_i64 e.latency_ms v.latency,
        )
        refl

  -- Over a database whose table of costs is empty, when events whose words fit their types and
  -- whose times are below 2 ^ 63 are recorded without an error and the selection of the store gives
  -- rows, the store lists exactly the events recorded, each as often as it was, and the earliest
  -- first: the casts to signed integers and back lose nothing.
  pub postgres_store-keeps :
      (labels : Str → Option (List (Str × Str))) (table : S → List Row)
      (laws : IsTable db (utf8 "$") cost_columns table) (es : List CostEvent) (s t : S)
      (rows : List (List db.Cell))
      → All IsStorable es
      → table s ≡ []
      → record_all (postgres_store db labels) es s ≡ some t
      → db.query select_events [] t ≡ some rows
      → (out : List CostEvent) × ((postgres_store db labels).all_cost_events t ≡ some out)
        × Shuffle out es
        × IsChronological out
  unfolding Option.bind
  postgres_store-keeps labels table laws es s t rows valid empty recorded answered =
      let (out, read, shuffled, ordered) =
        selected-record_all db (utf8 "$") table cost_columns laws bound_values (λ e. refl)
          (event_of db) IsStorable event_of-Shows (postgres_store db labels)
          (λ e u. ap (λ text. db.send text (bound_values e) u) insert_event-columns) es s t rows
          valid empty recorded
          (ap (λ text. db.query text [] t) (sym select_events-columns) ∙ answered) in
      (
        out,
        ap (λ o. Option.bind o (collect_rows (event_of db))) answered ∙ read,
        shuffled,
        InOrder-IsChronological out (All-Shuffle IsStorable shuffled valid) ordered,
      )
