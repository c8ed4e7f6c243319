-- ===== src/Stores/Sqlite/Laws.antt =====
-- The store over SQLite keeps the events.
use neu_rust.Prelude.{
  ◌≡◌, ◌∷◌, [], some, true, false, refl, List, Bool, ◌≤◌, ◌∙◌, All, Option, map, ap, sym,
}
use mathlib.Core.Option
use neu_rust.Prelude.Keys.{nat_eq, text_eq}
use neu_rust.Prelude.Maps
use neu_rust.Prelude.Text.{Str, utf8}
use neu_rust.Prelude.Decimal.{digits_from}
use neu_rust.Contracts.{CostEvent}
use neu_rust.Stores.Sql.{
  BothBelow, Database, insert_text, select_text, Shows, zip, word, text, real, signed, InOrder, Row,
  IsTable, Shuffle, collect_rows,
}
use neu_rust.Stores.Sql.Laws.{shown_at, record_all, selected-record_all}
use neu_rust.Stores.Sqlite.{
  cost_params, cost_event_of, insert_cost, select_costs, flag_number, is_set, sqlite_store,
}
use neu_rust.Stores.EventStore.{IsChronological}

-- The columns, in the order of the statements.
abbrev pub cost_columns : List Str
cost_columns =
    utf8 "timestamp_ms"
    ∷ utf8 "provider_id"
    ∷ utf8 "model"
    ∷ utf8 "prompt_tokens"
    ∷ utf8 "completion_tokens"
    ∷ utf8 "cost_usd"
    ∷ utf8 "latency_ms"
    ∷ utf8 "cached"
    ∷ []

insert_cost-columns : insert_cost ≡ insert_text (utf8 "?") cost_columns
unfolding digits_from
insert_cost-columns = refl

select_costs-columns : select_costs ≡ select_text cost_columns
select_costs-columns = refl

is_set-flag_number : (b : Bool) → is_set (flag_number b) ≡ b
is_set-flag_number true = refl
is_set-flag_number false = refl

first_chronological :
    (e : CostEvent) (es : List CostEvent)
    → All
        (λ s. BothBelow (some (word e.timestamp_ms)) (Maps.lookup (utf8 "timestamp_ms") s))
        (map (λ f. zip cost_columns (cost_params f)) es)
    → All (λ f. e.timestamp_ms ≤ f.timestamp_ms) es
unfolding Maps.lookup
first_chronological e [] h = tt
first_chronological e (f ∷ es) h = (h.0, first_chronological e es h.1)

InOrder-IsChronological :
    (es : List CostEvent)
    → InOrder (utf8 "timestamp_ms") (map (λ e. zip cost_columns (cost_params e)) es)
    → IsChronological es
unfolding Maps.lookup
InOrder-IsChronological [] h = tt
InOrder-IsChronological (e ∷ es) h = (first_chronological e es h.0, InOrder-IsChronological es h.1)

module _ {S : Type 0} (db : Database S) where
  cost_event_of-Shows :
      (e : CostEvent) (cells : List db.Cell)
      → Unit {0}
      → Shows db cost_columns (zip cost_columns (cost_params e)) cells
      → cost_event_of db cells ≡ some e
  unfolding cost_event_of Option.bind Maps.lookup
  cost_event_of-Shows e cells v h =
      let row = zip cost_columns (cost_params e) in
      let (x0, g0, h0) = shown_at db cost_columns row cells 0 _ (word e.timestamp_ms) h refl refl in
      let (x1, g1, h1) = shown_at db cost_columns row cells 1 _ (text e.provider_id) h refl refl in
      let (x2, g2, h2) = shown_at db cost_columns row cells 2 _ (text e.model) h refl refl in
      let (x3, g3, h3) =
        shown_at db cost_columns row cells 3 _ (word e.prompt_tokens) h refl refl in
      let (x4, g4, h4) =
        shown_at db cost_columns row cells 4 _ (word e.completion_tokens) h refl refl in
      let (x5, g5, h5) = shown_at db cost_columns row cells 5 _ (real e.cost_usd) h refl refl in
      let (x6, g6, h6) = shown_at db cost_columns row cells 6 _ (word e.latency_ms) h refl refl in
      let (x7, g7, h7) =
        shown_at db cost_columns row cells 7 _ (signed (flag_number e.cached)) h refl refl in
      rw
        (
          g0,
          h0,
          g1,
          h1,
          g2,
          h2,
          g3,
          h3,
          g4,
          h4,
          g5,
          h5,
          g6,
          h6,
          g7,
          h7,
          is_set-flag_number e.cached,
        )
        refl

  All-Unit : (es : List CostEvent) → All (λ e. Unit {0}) es
  All-Unit [] = tt
  All-Unit (e ∷ es) = (tt, All-Unit es)

  -- Over a database whose table of costs is empty, when the events are recorded without an error
  -- and the selection of the store gives rows, the store lists exactly the events recorded, each as
  -- often as it was, and the earliest first.
  pub sqlite_store-keeps :
      (labels : Str → Option (List (Str × Str))) (table : S → List Row)
      (laws : IsTable db (utf8 "?") cost_columns table) (es : List CostEvent) (s t : S)
      (rows : List (List db.Cell))
      → table s ≡ []
      → record_all (sqlite_store db labels) es s ≡ some t
      → db.query select_costs [] t ≡ some rows
      → (out : List CostEvent) × ((sqlite_store db labels).all_cost_events t ≡ some out)
        × Shuffle out es
        × IsChronological out
  unfolding Option.bind
  sqlite_store-keeps labels table laws es s t rows empty recorded answered =
      let (out, read, shuffled, ordered) =
        selected-record_all db (utf8 "?") table cost_columns laws cost_params (λ e. refl)
          (cost_event_of db) (λ e. Unit {0}) cost_event_of-Shows (sqlite_store db labels)
          (λ e u. ap (λ text. db.send text (cost_params e) u) insert_cost-columns) es s t rows
          (All-Unit es) empty recorded
          (ap (λ text. db.query text [] t) (sym select_costs-columns) ∙ answered) in
      (
        out,
        ap (λ o. Option.bind o (collect_rows (cost_event_of db))) answered ∙ read,
        shuffled,
        InOrder-IsChronological out ordered,
      )
