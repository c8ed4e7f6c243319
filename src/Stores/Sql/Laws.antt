-- ===== src/Stores/Sql/Laws.antt =====
-- Any store whose statements list its columns in the order of its values, and read them at the
-- types at which they were bound, keeps the events that it records.
use neu_rust.Prelude.{
  ◌≡◌, ◌∷◌, ◌++◌, ◌∙◌, [], some, zero, suc, refl, ap, sym, arith, List, ℕ, Option, get_elem?, map,
  length, Option-cases, inl, inr, All,
}
use mathlib.Core.Option
use mathlib.Core.Option.{some-injective}
use mathlib.Core.List.{append-nil, append_assoc}
use neu_rust.Prelude.Keys.{nat_eq, text_eq}
use neu_rust.Prelude.Maps
use neu_rust.Prelude.Text.{Str, utf8}
use neu_rust.Contracts.{CostEvent}
use neu_rust.Stores.Sql.{
  Database, Param, Row, zip, Shuffle, none_left, keep, swap, chain, insert_text, Holds, Shows,
  ShowsAll, IsTable, collect_rows, select_text, InOrder,
}
use neu_rust.Stores.EventStore.{EventStore}
use mathlib.Core.Path.{subst}

-- A shuffle of images is the image of a shuffle.
Shuffle-map :
    {A B : Type 0} (f : A → B) {out ys : List B} (s : Shuffle out ys) (xs : List A)
    → ys ≡ map f xs
    → (zs : List A) × (out ≡ map f zs) × Shuffle zs xs
Shuffle-map f none_left [] e = ([], refl, none_left)
Shuffle-map f none_left (x ∷ xs) e = absurd (ground arith)
Shuffle-map f (keep b s) [] e = absurd (ground arith)
Shuffle-map f (keep b s) (x ∷ xs) e =
    let (zs, same, shuffled) = Shuffle-map f s xs (ground arith) in
    (x ∷ zs, ground arith, keep x shuffled)
Shuffle-map f (swap b c bs) [] e = absurd (ground arith)
Shuffle-map f (swap b c bs) (x ∷ []) e = absurd (ground arith)
Shuffle-map f (swap b c bs) (x ∷ y ∷ xs) e = (y ∷ x ∷ xs, ground arith, swap y x xs)
Shuffle-map f (chain s t) xs e =
    let (ys, same, first) = Shuffle-map f t xs e in
    let (zs, same', second) = Shuffle-map f s ys same in (zs, same', chain second first)

same_value :
    {c d : Str} {p q : Param} (row : Row)
    → Maps.lookup d row ≡ some q
    → Maps.lookup c row ≡ some p
    → some d ≡ some c
    → q ≡ p
same_value {c} {d} {p} {q} row found has at =
    let named : d ≡ c = some-injective d c at in
    some-injective q p (sym found ∙ ap (λ k. Maps.lookup k row) named ∙ has)

pub All-Shuffle :
    {A : Type 0} (P : A → Type 0) {xs ys : List A} → Shuffle xs ys → All P ys → All P xs
All-Shuffle P none_left h = h
All-Shuffle P (keep x s) h = (h.0, All-Shuffle P s h.1)
All-Shuffle P (swap x y xs) h = (h.1.0, (h.0, h.1.1))
All-Shuffle P (chain s t) h = All-Shuffle P s (All-Shuffle P t h)

-- The recording of events one after the other, up to the first error.
unfoldable pub record_all : {S : Type 0} → EventStore S → List CostEvent → S → Option S
record_all store [] s = some s
record_all store (e ∷ es) s = Option.bind (store.record_cost e s) (record_all store es)

module _ {S : Type 0} (db : Database S) where
  -- The cell of a column, where the row has the value.
  pub shown_at :
      (cs : List Str) (row : Row) (cells : List db.Cell) (i : ℕ) (c : Str) (p : Param)
      → Shows db cs row cells
      → get_elem? cs i ≡ some c
      → Maps.lookup c row ≡ some p
      → (x : db.Cell) × (get_elem? cells i ≡ some x) × Holds db p x
  shown_at [] row cells i c p h at has = absurd (ground arith)
  shown_at (d ∷ cs) row [] i c p h at has = absurd h
  shown_at (d ∷ cs) row (x ∷ cells) zero c p (q, found, holds, rest) at has =
      (x, refl, subst (λ z. Holds db z x) (same_value row found has at) holds)
  shown_at (d ∷ cs) row (x ∷ cells) (suc i) c p (q, found, holds, rest) at has =
      shown_at cs row cells i c p rest at has

module _ {S : Type 0} (db : Database S) (mark : Str) (table : S → List Row) (columns : List Str)
    (laws : IsTable db mark columns table) (params : CostEvent → List Param)
    (fits : (e : CostEvent) → length (params e) ≡ length columns)
    (read : List db.Cell → Option CostEvent) (Valid : CostEvent → Type 0)
    (reads_back : (e : CostEvent) (cells : List db.Cell)
      → Valid e
      → Shows db columns (zip columns (params e)) cells
      → read cells ≡ some e)
    (store : EventStore S)
    (inserts : (e : CostEvent) (s : S)
      → store.record_cost e s ≡ db.send (insert_text mark columns) (params e) s) where
  abbrev event_row : CostEvent → Row
  event_row e = zip columns (params e)

  collect_rows-ShowsAll :
      (es : List CostEvent) (rows : List (List db.Cell))
      → All Valid es
      → ShowsAll db columns (map event_row es) rows
      → collect_rows read rows ≡ some es
  unfolding Option.bind
  collect_rows-ShowsAll [] [] v h = refl
  collect_rows-ShowsAll [] (x ∷ rows) v h = absurd h
  collect_rows-ShowsAll (e ∷ es) [] v h = absurd h
  collect_rows-ShowsAll (e ∷ es) (x ∷ rows) v (first, rest) =
      rw (reads_back e x v.0 first, collect_rows-ShowsAll es rows v.1 rest) refl

  table-record_all :
      (es : List CostEvent) (s t : S)
      → record_all store es s ≡ some t
      → table t ≡ table s ++ map event_row es
  unfolding record_all Option.bind
  table-record_all [] s t h = sym (ap table (some-injective s t h)) ∙ sym (append-nil (table s))
  table-record_all (e ∷ es) s t h = elim (Option-cases (store.record_cost e s)) [
    | inl failed ↦ absurd (ground arith)
    | inr (u, done) ↦
        table-record_all es u t (rw (done, record_all) at h)
        ∙ ap (λ rows. rows ++ map event_row es)
            (laws.inserted (params e) s u (fits e) (sym (inserts e s) ∙ done))
        ∙ append_assoc (table s) (event_row e ∷ []) (map event_row es)
  ]

  -- What a selection reads after the events are recorded in an empty table.
  pub selected-record_all :
      (es : List CostEvent) (s t : S) (rows : List (List db.Cell))
      → All Valid es
      → table s ≡ []
      → record_all store es s ≡ some t
      → db.query (select_text columns) [] t ≡ some rows
      → (out : List CostEvent) × (collect_rows read rows ≡ some out)
        × Shuffle out es
        × InOrder (utf8 "timestamp_ms") (map event_row out)
  selected-record_all es s t rows valid empty recorded answered =
      let (shown, shuffled, ordered, cells) = laws.selected t rows answered in
      let held : table t ≡ map event_row es =
        table-record_all es s t recorded ∙ ap (λ r. r ++ map event_row es) empty in
      let (out, same, events) = Shuffle-map event_row shuffled es held in
      (
        out,
        collect_rows-ShowsAll out rows (All-Shuffle Valid events valid)
            (subst (λ r. ShowsAll db columns r rows) same cells),
        events,
        subst (InOrder (utf8 "timestamp_ms")) same ordered,
      )
