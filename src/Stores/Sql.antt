-- ===== src/Stores/Sql.antt =====
-- What the stores that send SQL need of a database and of the crate in front of it: the calls, and
-- what SQL says of an insertion and of a selection in order.
pub mod Laws
use mathlib.Core.Option
use neu_rust.Prelude.{
  ◌≡◌, ◌≤◌, ◌∷◌, ◌++◌, ◌+◌, [], some, List, ℕ, Option, Bool, All, length, get_elem?,
}
use neu_rust.Prelude.Keys.{nat_eq, text_eq}
use neu_rust.Prelude.Maps
use neu_rust.Prelude.Text.{Str, utf8, join}
use neu_rust.Prelude.Decimal.{show_u64}
use neu_rust.Prelude.Float.{F64}
use neu_rust.Prelude.Int.{ℤ, ◌≤ℤ◌}
use Option.{none}

-- A value that is bound to a statement, by its type in Rust: unsigned, signed, `f64`, text, `bool`.
pub data Param : Type 0 where
  word : ℕ → Param
  signed : ℤ → Param
  real : F64 → Param
  text : Str → Param
  flag : Bool → Param

-- The calls of the crate, over the state of the database: `none` is an error. A selection gives
-- the cells of its rows, which are read at a type.
pub record Database (S : Type 0) : Type 1 where
  pub Cell : Type 0
  pub send : Str → List Param → S → Option S
  pub send_batch : Str → S → Option S
  pub query : Str → List Param → S → Option (List (List Cell))
  pub word_of : Cell → Option ℕ
  pub signed_of : Cell → Option ℤ
  pub real_of : Cell → Option F64
  pub text_of : Cell → Option Str
  pub flag_of : Cell → Option Bool

-- A row of a table, by column.
abbrev pub Row : Type 0
Row = List (Str × Param)

abbrev pub zip : List Str → List Param → Row
zip [] ps = []
zip (c ∷ cs) [] = []
zip (c ∷ cs) (p ∷ ps) = (c, p) ∷ zip cs ps

-- The same items, as often, in another order.
pub data Shuffle {A : Type 0} : List A → List A → Type 0 where
  none_left : Shuffle [] []
  keep : (x : A) {xs ys : List A} → Shuffle xs ys → Shuffle (x ∷ xs) (x ∷ ys)
  swap : (x y : A) (xs : List A) → Shuffle (x ∷ y ∷ xs) (y ∷ x ∷ xs)
  chain : {xs ys zs : List A} → Shuffle xs ys → Shuffle ys zs → Shuffle xs zs

abbrev pub IsBelow : Param → Param → Type 0
IsBelow (word m) (word n) = m ≤ n
IsBelow (signed m) (signed n) = m ≤ℤ n
IsBelow _ _ = Unit

-- Two rows in the order of a column, where both have it.
abbrev pub BothBelow : Option Param → Option Param → Type 0
BothBelow (some p) (some q) = IsBelow p q
BothBelow _ _ = Unit

abbrev pub InOrder : Str → List Row → Type 0
InOrder column [] = Unit
InOrder column (r ∷ rs) =
    All (λ s. BothBelow (Maps.lookup column r) (Maps.lookup column s)) rs × InOrder column rs

-- "?1, ?2, ..." of SQLite, or "$1, $2, ..." of PostgreSQL, from a number on.
abbrev pub placeholders : Str → ℕ → List Str → List Str
placeholders mark i [] = []
placeholders mark i (c ∷ cs) = (mark ++ show_u64 i) ∷ placeholders mark (i + 1) cs

abbrev pub insert_text : Str → List Str → Str
insert_text mark columns =
    utf8 "INSERT INTO cost_events ("
    ++ (join columns (utf8 ", ")
        ++ (utf8 ")\n             VALUES ("
            ++ (join (placeholders mark 1 columns) (utf8 ", ") ++ utf8 ")")))

abbrev pub select_text : List Str → Str
select_text columns =
    utf8 "SELECT "
    ++ (join columns (utf8 ", ")
        ++ utf8 "\n             FROM cost_events ORDER BY timestamp_ms ASC")

-- The operator `?` on errors.
infixl 5 ◌>>=◌
abbrev pub ◌>>=◌ {ℓ κ} : {A : Type ℓ} {B : Type κ} → Option A → (A → Option B) → Option B
none >>= f = none
some a >>= f = f a

-- `collect` into a result: the first error is the result.
abbrev pub collect_rows : {A B : Type 0} → (A → Option B) → List A → Option (List B)
collect_rows f [] = some []
collect_rows f (x ∷ xs) = Option.bind (f x) (λ y. Option.map (λ ys. y ∷ ys) (collect_rows f xs))

module _ {S : Type 0} (db : Database S) where
  -- `row.get(i)` at a type.
  abbrev pub column : {A : Type 0} → (db.Cell → Option A) → List db.Cell → ℕ → Option A
  column read cells i = Option.bind (get_elem? cells i) read

  -- A cell that holds a value is read back at the type at which the value was bound.
  abbrev pub Holds : Param → db.Cell → Type 0
  Holds (word n) c = db.word_of c ≡ some n
  Holds (signed n) c = db.signed_of c ≡ some n
  Holds (real x) c = db.real_of c ≡ some x
  Holds (text s) c = db.text_of c ≡ some s
  Holds (flag b) c = db.flag_of c ≡ some b

  -- The cells are those of the columns of a row.
  abbrev pub Shows : List Str → Row → List db.Cell → Type 0
  Shows [] row [] = Unit
  Shows [] row (x ∷ xs) = ⊥
  Shows (c ∷ cs) row [] = ⊥
  Shows (c ∷ cs) row (x ∷ xs) =
      (p : Param) × (Maps.lookup c row ≡ some p) × Holds p x × Shows cs row xs

  abbrev pub ShowsAll : List Str → List Row → List (List db.Cell) → Type 0
  ShowsAll cs [] [] = Unit
  ShowsAll cs [] (x ∷ xs) = ⊥
  ShowsAll cs (r ∷ rs) [] = ⊥
  ShowsAll cs (r ∷ rs) (x ∷ xs) = Shows cs r x × ShowsAll cs rs xs

  -- The rows of the table `cost_events`, seen through `table`, for statements that list these
  -- columns: an insertion that succeeds adds a row with a value for each, and a selection that
  -- succeeds gives all rows in the order of their times, with the cells of the columns.
  pub record IsTable (mark : Str) (columns : List Str) (table : S → List Row) : Type 0 where
    pub inserted :
        (params : List Param) (s t : S)
        → length params ≡ length columns
        → db.send (insert_text mark columns) params s ≡ some t
        → table t ≡ table s ++ zip columns params ∷ []
    pub selected :
        (s : S) (rows : List (List db.Cell))
        → db.query (select_text columns) [] s ≡ some rows
        → (out : List Row) × Shuffle out (table s)
          × InOrder (utf8 "timestamp_ms") out
          × ShowsAll columns out rows
