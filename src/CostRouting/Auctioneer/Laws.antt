-- ===== src/CostRouting/Auctioneer/Laws.antt =====
-- Which model the auctioneer chooses.
use neu_rust.Prelude.{
  map, true, false, inl, inr, refl, arith, if◌then◌else◌, ◌≡◌, ◌<◌, ◌-◌, ◌∷◌, [], zero, suc, some,
  List, In, length, ℕ, Option, get_elem?, head?, length-map, ap, min, is_empty_of_positive, if-both,
  not, ◌+◌, Bool, leb, ◌&&◌, ◌⊎◌, ◌==◌, All, ◌∙◌, All-In,
}
use mathlib.Core.Option
use neu_rust.CostRouting.Auctioneer.{
  explores, select_best, CostAuctioneer, RawScore, scores, to_model_spec, combined, score_le,
  rand_f64, is_warm,
}
use neu_rust.Prelude.Float.{Arithmetic, F64, is_nan, is_negative, ordered_le, magnitude, f64_le}
use neu_rust.Contracts.{RequestContext, UnifiedRequest, ModelSpec}
use neu_rust.Prelude.Text.{Str}
use neu_rust.Prelude.Sort.{
  sort_by, length-sort_by, In-of_In-sort_by, IsOrder, IsSorted, sort_by-agree, sort_by-IsSorted,
  In-sort_by,
}
use mathlib.Core.Path.{subst}

-- The outcome is a candidate, by its name.
abbrev pub IsCandidate : List RawScore → Option ModelSpec → Type 0
IsCandidate candidates o =
    (c : RawScore) × (In c candidates × (o ≡ some (to_model_spec c.model_id)))

In-get_elem? :
    {A : Type 0} (xs : List A) (i : ℕ)
    → i < length xs
    → (x : A) × (In x xs × (get_elem? xs i ≡ some x))
In-get_elem? [] i h = absurd (omega arith)
In-get_elem? (x ∷ xs) zero h = (x, (inl refl, refl))
In-get_elem? (x ∷ xs) (suc i) h =
    let (y, (member, same)) = In-get_elem? xs i (omega arith) in (y, (inr member, same))

In-head? : {A : Type 0} (xs : List A) → 0 < length xs → (x : A) × (In x xs × (head? xs ≡ some x))
In-head? [] h = absurd (omega arith)
In-head? (x ∷ xs) h = (x, (inl refl, refl))

In-of_In-map :
    {A B : Type 0} (f : A → B) (b : B) (xs : List A)
    → In b (map f xs)
    → (a : A) × (In a xs × (b ≡ f a))
In-of_In-map f b [] h = absurd h
In-of_In-map f b (x ∷ xs) (inl here) = (x, (inl refl, here))
In-of_In-map f b (x ∷ xs) (inr later) =
    let (a, (member, same)) = In-of_In-map f b xs later in (a, (inr member, same))

module _ (ar : Arithmetic) (a : CostAuctioneer) (context : RequestContext) where
  -- Who is among the scores is a candidate.
  candidate_of :
      (s : Str × F64)
      → In s (scores ar a context)
      → (c : RawScore) × (In c a.candidates × (s.0 ≡ c.model_id))
  candidate_of s h =
      let (c, (member, same)) =
        In-of_In-map (λ c. (c.model_id, combined ar a context c)) s a.candidates h in
      (c, (member, ap (λ p. p.0) same))

  chosen :
      (o : Option (Str × F64)) (s : Str × F64)
      → In s (scores ar a context)
      → o ≡ some s
      → IsCandidate a.candidates (Option.map (λ p. to_model_spec p.0) o)
  chosen o s h e = let (c, (member, same)) = candidate_of s h in (c, (member, rw (e, same) refl))

-- Whatever the clock shows, the weights and the scores: with candidates one of them is chosen, by
-- its name and without a provider.
pub select_best-IsCandidate :
    (ar : Arithmetic) (a : CostAuctioneer) (nanos again : ℕ) (r : UnifiedRequest)
    → 0 < length a.candidates
    → IsCandidate a.candidates (select_best ar a nanos again r)
unfolding select_best
select_best-IsCandidate ar a nanos again r some_candidate =
    let scored = scores ar a r.context in
    let count =
      length-map {B = Str × F64} a.candidates (λ s. (s.model_id, combined ar a r.context s)) in
    let sorted = sort_by score_le scored in
    let (first, (first_in, first_is)) = In-head? a.candidates some_candidate in
    let (least, (least_in, least_is)) =
      In-head? sorted (omega (arith, count, length-sort_by score_le scored)) in
    let i =
      min (ar.to_nat (ar.mul (rand_f64 ar again) (ar.of_nat (length scored))))
        (length scored - 1) in
    let (pick, (pick_in, pick_is)) = In-get_elem? scored i (omega (arith, count)) in
    rw (is_empty_of_positive a.candidates some_candidate) (
      if-both (IsCandidate a.candidates) (not (is_warm a)) (first, (first_in, rw first_is refl))
        (if-both (IsCandidate a.candidates) (explores ar a nanos)
          (chosen ar a r.context (get_elem? scored i) pick pick_in pick_is)
          (chosen ar a r.context (head? sorted) least
            (In-of_In-sort_by score_le least scored least_in) least_is)))

-- The place of a double among the others: the order of IEEE 754 as an order of numbers.
abbrev place : F64 → ℕ
place x =
    if is_negative x then 0x8000000000000000 - magnitude x else 0x8000000000000000 + magnitude x

place_order :
    (nx ny : Bool) (mx my : ℕ)
    → mx < 0x8000000000000000
    → my < 0x8000000000000000
    → (if nx
        then (if ny then leb my mx else true)
        else (if ny then (mx == 0) && (my == 0) else leb mx my))
      ≡ leb
          (if nx then 0x8000000000000000 - mx else 0x8000000000000000 + mx)
          (if ny then 0x8000000000000000 - my else 0x8000000000000000 + my)
place_order true true mx my hx hy = ground arith
place_order true false mx my hx hy = ground arith
place_order false true mx my hx hy = ground arith
place_order false false mx my hx hy = ground arith

ordered_le-place : (x y : F64) → ordered_le x y ≡ leb (place x) (place y)
ordered_le-place x y =
    place_order (is_negative x) (is_negative y) (magnitude x) (magnitude y) (omega arith)
      (omega arith)

abbrev place_le : Str × F64 → Str × F64 → Bool
place_le a b = leb (place a.1) (place b.1)

leb-total : (a b : ℕ) → (leb a b ≡ true) ⊎ (leb b a ≡ true)
leb-total a b = ground arith

leb_trans : (a b c : ℕ) → leb a b ≡ true → leb b c ≡ true → leb a c ≡ true
leb_trans a b c p q = ground arith

place_le-IsOrder : IsOrder place_le
place_le-IsOrder = record {
  total = λ a b. leb-total (place a.1) (place b.1);
  trans = λ a b c p q. leb_trans (place a.1) (place b.1) (place c.1) p q;
}

-- It is a number.
abbrev IsNumber : Str × F64 → Type 0
IsNumber s = is_nan s.1 ≡ false

not-not : (b : Bool) → not (not b) ≡ b
not-not true = refl
not-not false = refl

score_le-place_le : (a b : Str × F64) → IsNumber a → IsNumber b → score_le a b ≡ place_le a b
score_le-place_le a b ha hb = rw (ha, hb, ordered_le-place) (not-not (place_le a b))

In-map : {A B : Type 0} (f : A → B) (x : A) (xs : List A) → In x xs → In (f x) (map f xs)
In-map f x [] h = absurd h
In-map f x (y ∷ xs) (inl here) = inl (ap f here)
In-map f x (y ∷ xs) (inr later) = inr (In-map f x xs later)

leb_refl : (x : ℕ) → leb x x ≡ true
leb_refl x = ground arith

head_least :
    (xs : List (Str × F64))
    → 0 < length xs
    → IsSorted place_le xs
    → (best : Str × F64) × (In best xs
        × ((head? xs ≡ some best) × ((y : Str × F64) → In y xs → place_le best y ≡ true)))
head_least [] filled sorted = absurd (omega arith)
head_least (x ∷ xs) filled sorted = (
  x,
  (
    inl refl,
    (
      refl,
      λ y m. elim m [
        | inl here ↦ rw here (leb_refl (place x.1))
        | inr later ↦ All-In (λ z. place_le x z ≡ true) y xs sorted.0 later
      ],
    ),
  ),
)

f64_le_of_place :
    (a b : Str × F64) → IsNumber a → IsNumber b → place_le a b ≡ true → f64_le a.1 b.1 ≡ true
f64_le_of_place a b ha hb h = rw (ha, hb, ordered_le-place) h

-- The first after a sort of scores, none of which is NaN, is the least.
sort_by-least :
    (xs : List (Str × F64))
    → 0 < length xs
    → All IsNumber xs
    → (best : Str × F64) × (In best xs
        × ((head? (sort_by score_le xs) ≡ some best)
            × ((y : Str × F64) → In y xs → f64_le best.1 y.1 ≡ true)))
sort_by-least xs filled numbers =
    let sorted = sort_by place_le xs in
    let same = sort_by-agree score_le place_le IsNumber score_le-place_le xs numbers in
    let (best, (member, (first, least))) =
      head_least sorted (omega (arith, length-sort_by place_le xs))
        (sort_by-IsSorted place_le place_le-IsOrder xs) in
    let inside = In-of_In-sort_by place_le best xs member in
    (
      best,
      (
        inside,
        (
          ap head? same ∙ first,
          λ y m.
              f64_le_of_place best y (All-In IsNumber best xs numbers inside)
                (All-In IsNumber y xs numbers m) (least y (In-sort_by place_le y xs m)),
        ),
      ),
    )

module _ (ar : Arithmetic) (a : CostAuctioneer) (nanos again : ℕ) (r : UnifiedRequest) where
  -- Once warm and when it does not explore, the auctioneer chooses a candidate with the least
  -- combined score, where no score is NaN.
  pub select_best-least :
      0 < length a.candidates
      → is_warm a ≡ true
      → explores ar a nanos ≡ false
      → All (λ s. is_nan s.1 ≡ false) (scores ar a r.context)
      → (c : RawScore) × (In c a.candidates
          × ((select_best ar a nanos again r ≡ some (to_model_spec c.model_id))
              × ((d : RawScore)
                  → In d a.candidates
                  → f64_le (combined ar a r.context c) (combined ar a r.context d) ≡ true)))
  unfolding select_best
  select_best-least some_candidate warm stays numbers =
      let scored = scores ar a r.context in
      let count =
        length-map {B = Str × F64} a.candidates (λ s. (s.model_id, combined ar a r.context s)) in
      let (best, (member, (first, least))) = sort_by-least scored (omega (arith, count)) numbers in
      let (c, (candidate, same)) =
        In-of_In-map (λ c. (c.model_id, combined ar a r.context c)) best a.candidates member in
      (
        c,
        (
          candidate,
          (
            rw (is_empty_of_positive a.candidates some_candidate, warm, stays, first, same) refl,
            λ d m.
                subst (λ s. f64_le s.1 (combined ar a r.context d) ≡ true) same
                  (least (d.model_id, combined ar a r.context d)
                    (In-map (λ c. (c.model_id, combined ar a r.context c)) d a.candidates m)),
          ),
        ),
      )
