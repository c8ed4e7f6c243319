-- ===== src/Tests/Databases.antt =====
-- The stores over SQL in front of a small database.
use neu_rust.Prelude.{
  ◌≡◌, ◌∷◌, ◌++◌, ◌&&◌, [], none, some, true, false, arith, List, ℕ, Bool, Option, All, leb,
  Bool-cases, if◌then◌else◌, and-left, and-right, inl, inr, refl, length, Option-cases, ◌<◌, ◌∙◌,
  sym, ap,
}
use mathlib.Core.Option
use mathlib.Core.Option.{some-injective}
use neu_rust.Prelude.Keys.{nat_eq, text_eq}
use neu_rust.Prelude.Maps
use neu_rust.Prelude.Text.{Str, utf8, str_eq, str_eq_iff}
use neu_rust.Prelude.Int.{pos, as_signed}
use neu_rust.Stores.Sql.{
  Database, Param, word, signed, real, text, flag, Row, zip, Shuffle, none_left, keep, swap,
  InOrder, BothBelow, insert_text, select_text, Holds, Shows, IsTable, ShowsAll,
}
use neu_rust.Contracts.{CostEvent}
use neu_rust.Stores.Sqlite.Laws.{cost_columns, sqlite_store-keeps}
use neu_rust.Stores.Sqlite.{cost_params, sqlite_store}
use neu_rust.Stores.Sql.Laws.{record_all}
use neu_rust.Stores.Postgres.{bound_values, postgres_store}
use neu_rust.Stores.Postgres.Laws.{IsStorable, postgres_store-keeps}
use neu_rust.Prelude.Decimal.{digits_from}
use neu_rust.Stores.EventStore.{IsChronological}

-- Two values of the same kind in order; a negative number is below none.
abbrev below : Param → Param → Bool
below (word m) (word n) = leb m n
below (signed (pos m)) (signed (pos n)) = leb m n
below _ _ = false

abbrev both : Option Param → Option Param → Bool
both (some p) (some q) = below p q
both _ _ = false

both-BothBelow : (a b : Option Param) → both a b ≡ true → BothBelow a b
both-BothBelow (some p) (some q) h = ground arith
both-BothBelow none b h = tt
both-BothBelow (some p) none h = tt

abbrev after_all : Option Param → List Row → Bool
after_all a [] = true
after_all a (r ∷ rs) = both a (Maps.lookup (utf8 "timestamp_ms") r) && after_all a rs

abbrev sorted : List Row → Bool
sorted [] = true
sorted (r ∷ rs) = after_all (Maps.lookup (utf8 "timestamp_ms") r) rs && sorted rs

after_all-All :
    (a : Option Param) (rs : List Row)
    → after_all a rs ≡ true
    → All (λ s. BothBelow a (Maps.lookup (utf8 "timestamp_ms") s)) rs
after_all-All a [] h = tt
after_all-All a (r ∷ rs) h =
    let now = both a (Maps.lookup (utf8 "timestamp_ms") r) in
    (
      both-BothBelow a _ (and-left now (after_all a rs) h),
      after_all-All a rs (and-right now (after_all a rs) h),
    )

sorted-InOrder : (rs : List Row) → sorted rs ≡ true → InOrder (utf8 "timestamp_ms") rs
sorted-InOrder [] h = tt
sorted-InOrder (r ∷ rs) h =
    let now = after_all (Maps.lookup (utf8 "timestamp_ms") r) rs in
    (
      after_all-All _ rs (and-left now (sorted rs) h),
      sorted-InOrder rs (and-right now (sorted rs) h),
    )

Shuffle-refl : (rs : List Row) → Shuffle rs rs
Shuffle-refl [] = none_left
Shuffle-refl (r ∷ rs) = keep r (Shuffle-refl rs)

abbrev swapped : List Row → List Row
swapped (x ∷ y ∷ rs) = y ∷ x ∷ rs
swapped rs = rs

swapped-Shuffle : (rs : List Row) → Shuffle (swapped rs) rs
swapped-Shuffle [] = none_left
swapped-Shuffle (x ∷ []) = keep x none_left
swapped-Shuffle (x ∷ y ∷ rs) = swap y x rs

-- The rows in order, if at most the first two are not.
abbrev in_order : List Row → Option (List Row)
in_order rs = if sorted rs then some rs else if sorted (swapped rs) then some (swapped rs) else none

in_order_parts :
    (rs out : List Row)
    → in_order rs ≡ some out
    → Shuffle out rs × InOrder (utf8 "timestamp_ms") out
in_order_parts rs out h = elim (Bool-cases (sorted rs)) [
  | inl at_once ↦
      let same : rs ≡ out = ground arith in rw (← same) (Shuffle-refl rs, sorted-InOrder rs at_once)
  | inr later ↦ elim (Bool-cases (sorted (swapped rs))) [
    | inl turned ↦
        let same : swapped rs ≡ out = ground arith in
        rw (← same) (swapped-Shuffle rs, sorted-InOrder (swapped rs) turned)
    | inr neither ↦ absurd (ground arith)
  ]
]

abbrev cells_of : List Str → Row → Option (List Param)
cells_of [] row = some []
cells_of (c ∷ cs) row =
    Option.bind (Maps.lookup c row) (λ p. Option.map (λ ps. p ∷ ps) (cells_of cs row))

abbrev all_cells : List Str → List Row → Option (List (List Param))
all_cells cs [] = some []
all_cells cs (r ∷ rs) =
    Option.bind (cells_of cs r) (λ x. Option.map (λ xs. x ∷ xs) (all_cells cs rs))

abbrev word_cell : Param → Option ℕ
word_cell (word n) = some n
word_cell _ = none

abbrev real_cell : Param → Option ℕ
real_cell (real n) = some n
real_cell _ = none

abbrev text_cell : Param → Option Str
text_cell (text n) = some n
text_cell _ = none

abbrev flag_cell : Param → Option Bool
flag_cell (flag n) = some n
flag_cell _ = none

if_same : {A : Type 0} (q : Str) (x : Option A) → (if str_eq q q then x else none) ≡ x
if_same q x = rw ((str_eq_iff q q).1 refl) refl

-- It takes one statement of each kind, and keeps the rows as its state.
module _ (mark : Str) (columns : List Str) where
  abbrev rows_db : Database (List Row)
  rows_db = record {
    Cell = Param;
    send = λ q ps s.
        if str_eq q (insert_text mark columns) then some (s ++ zip columns ps ∷ []) else none;
    send_batch = λ q s. some s;
    query = λ q ps s.
        if str_eq q (select_text columns)
        then Option.bind (in_order s) (all_cells columns)
        else none;
    word_of = word_cell;
    signed_of = λ p. elim p [ signed z ↦ some z | _ ↦ none ];
    real_of = real_cell;
    text_of = text_cell;
    flag_of = flag_cell;
  }

  Holds-self : (p : Param) → Holds rows_db p p
  Holds-self (word n) = refl
  Holds-self (signed n) = refl
  Holds-self (real n) = refl
  Holds-self (text n) = refl
  Holds-self (flag n) = refl

  cells_of-Shows :
      (cs : List Str) (row : Row) (cells : List Param)
      → cells_of cs row ≡ some cells
      → Shows rows_db cs row cells
  unfolding Option.bind Maps.lookup
  cells_of-Shows [] row [] h = tt
  cells_of-Shows [] row (x ∷ cells) h = absurd (ground arith)
  cells_of-Shows (c ∷ cs) row cells h = elim (Option-cases (Maps.lookup c row)) [
    | inl missing ↦ absurd (ground arith)
    | inr (p, found) ↦ elim (Option-cases (cells_of cs row)) [
      | inl missing ↦ absurd (ground arith)
      | inr (ps, rest) ↦
          let same : p ∷ ps ≡ cells = ground arith in
          rw (← same) (p, found, Holds-self p, cells_of-Shows cs row ps rest)
    ]
  ]

  all_cells-ShowsAll :
      (cs : List Str) (rows : List Row) (out : List (List Param))
      → all_cells cs rows ≡ some out
      → ShowsAll rows_db cs rows out
  unfolding Option.bind
  all_cells-ShowsAll cs [] [] h = tt
  all_cells-ShowsAll cs [] (x ∷ out) h = absurd (ground arith)
  all_cells-ShowsAll cs (r ∷ rows) out h = elim (Option-cases (cells_of cs r)) [
    | inl missing ↦ absurd (ground arith)
    | inr (x, first) ↦ elim (Option-cases (all_cells cs rows)) [
      | inl missing ↦ absurd (ground arith)
      | inr (xs, rest) ↦
          let same : x ∷ xs ≡ out = ground arith in
          rw (← same) (cells_of-Shows cs r x first, all_cells-ShowsAll cs rows xs rest)
    ]
  ]

  rows_db-inserted :
      (params : List Param) (s t : List Row)
      → length params ≡ length columns
      → rows_db.send (insert_text mark columns) params s ≡ some t
      → t ≡ s ++ zip columns params ∷ []
  rows_db-inserted params s t fits h = ground arith

  rows_db-IsTable : IsTable rows_db mark columns (λ s. s)
  unfolding Option.bind
  rows_db-IsTable = record {
    inserted = rows_db-inserted;
    selected = λ s rows h. elim (Option-cases (in_order s)) [
      | inl disordered ↦ absurd (ground arith)
      | inr (out, sorted_rows) ↦
          let parts = in_order_parts s out sorted_rows in
          (
            out,
            parts.0,
            parts.1,
            all_cells-ShowsAll columns out rows (
                sym (ap (λ o. Option.bind o (all_cells columns)) sorted_rows)
                ∙ sym (if_same (select_text columns) (Option.bind (in_order s) (all_cells columns)))
                ∙ h),
          )
    ];
  }

abbrev event : ℕ → CostEvent
event at = record {
  timestamp_ms = at;
  provider_id = utf8 "a";
  model = utf8 "m";
  prompt_tokens = 0x80000001;
  completion_tokens = 2;
  cost_usd = 5;
  latency_ms = 7;
  cached = true;
}

-- The second event is earlier than the first.
abbrev two_events : List CostEvent
two_events = event 90 ∷ event 80 ∷ []

abbrev no_labels : Str → Option (List (Str × Str))
no_labels s = none

abbrev sqlite : Database (List Row)
sqlite = rows_db (utf8 "?") cost_columns

abbrev after_two : List Row
after_two =
    zip cost_columns (cost_params (event 90)) ∷ zip cost_columns (cost_params (event 80)) ∷ []

abbrev two_rows : List (List Param)
two_rows = cost_params (event 80) ∷ cost_params (event 90) ∷ []

sqlite_store-keeps_example :
    (out : List CostEvent) × ((sqlite_store sqlite no_labels).all_cost_events after_two ≡ some out)
    × Shuffle out two_events
    × IsChronological out
unfolding record_all Option.bind Maps.lookup digits_from
sqlite_store-keeps_example =
    sqlite_store-keeps sqlite no_labels (λ s. s) (rows_db-IsTable (utf8 "?") cost_columns)
      two_events [] after_two two_rows refl refl refl

abbrev postgres : Database (List Row)
postgres = rows_db (utf8 "$") cost_columns

abbrev bound_two : List Row
bound_two =
    zip cost_columns (bound_values (event 90)) ∷ zip cost_columns (bound_values (event 80)) ∷ []

abbrev bound_rows : List (List Param)
bound_rows = bound_values (event 80) ∷ bound_values (event 90) ∷ []

event-IsStorable : (at : ℕ) → at < 100 → IsStorable (event at)
event-IsStorable at h = record {
  time = omega arith;
  prompt = omega arith;
  completion = omega arith;
  latency = omega arith;
}

postgres_store-keeps_example :
    (out : List CostEvent) × ((postgres_store postgres no_labels).all_cost_events bound_two
      ≡ some out)
    × Shuffle out two_events
    × IsChronological out
unfolding record_all Option.bind Maps.lookup digits_from as_signed
postgres_store-keeps_example =
    postgres_store-keeps postgres no_labels (λ s. s) (rows_db-IsTable (utf8 "$") cost_columns)
      two_events [] bound_two bound_rows
      (event-IsStorable 90 (omega arith), (event-IsStorable 80 (omega arith), tt)) refl refl refl
