-- ===== src/Prelude/Lists.antt =====
-- Lists measured by native numbers, and the tests and predicates of Rust's iterators.
use Prim.Native.Nat.{ℕ, zero, suc, ◌+◌, ◌≤◌, ◌<◌}
use mathlib.Core.Path.{◌≡◌, refl, ap, sym, subst}
use mathlib.Core.Bool.{Bool, true, false, ◌&&◌, ◌||◌}
use mathlib.Core.List.{List, [], ◌∷◌, ◌++◌, map, reverse, reverse-cons, map-append}
use mathlib.Core.Logic.{◌⊎◌, inl, inr}
use mathlib.Core.Option.{Option, none, some}
use native.Mathlib.Omega.{arith}
use neu_rust.Prelude.Tests.{if◌then◌else◌, Bool-cases}

module _ {ℓ} {A : Type ℓ} where
  abbrev pub length : List A → ℕ
  length [] = 0
  length (x ∷ xs) = suc (length xs)

  abbrev pub is_empty : List A → Bool
  is_empty [] = true
  is_empty (x ∷ xs) = false

  abbrev pub get_elem? : List A → ℕ → Option A
  get_elem? [] i = none
  get_elem? (x ∷ xs) zero = some x
  get_elem? (x ∷ xs) (suc i) = get_elem? xs i

  abbrev pub take : ℕ → List A → List A
  take zero xs = []
  take (suc n) [] = []
  take (suc n) (x ∷ xs) = x ∷ take n xs

  abbrev pub drop : ℕ → List A → List A
  drop zero xs = xs
  drop (suc n) [] = []
  drop (suc n) (x ∷ xs) = drop n xs

  -- `iter().filter`, with a Boolean test.
  abbrev pub filter : (A → Bool) → List A → List A
  filter p [] = []
  filter p (x ∷ xs) = if p x then x ∷ filter p xs else filter p xs

  abbrev pub any : (A → Bool) → List A → Bool
  any p [] = false
  any p (x ∷ xs) = p x || any p xs

  abbrev pub all : (A → Bool) → List A → Bool
  all p [] = true
  all p (x ∷ xs) = p x && all p xs

  -- `iter().find`.
  abbrev pub find : (A → Bool) → List A → Option A
  find p [] = none
  find p (x ∷ xs) = if p x then some x else find p xs

  -- `first()`.
  abbrev pub head? : List A → Option A
  head? [] = none
  head? (x ∷ xs) = some x

  abbrev pub All {κ} : (A → Type κ) → List A → Type κ
  All P [] = Unit
  All P (x ∷ xs) = P x × All P xs

-- Membership, with its position kept.
abbrev pub In : {A : Type 0} → A → List A → Type 0
In a [] = ⊥
In a (x ∷ xs) = (a ≡ x) ⊎ In a xs

module _ {ℓ} {A : Type ℓ} where
  pub length-append : (xs ys : List A) → length (xs ++ ys) ≡ length xs + length ys
  length-append [] ys = omega arith
  length-append (x ∷ xs) ys = omega (arith, length-append xs ys)

  pub length-filter-le : (p : A → Bool) (xs : List A) → length (filter p xs) ≤ length xs
  length-filter-le p [] = omega arith
  length-filter-le p (x ∷ xs) = ground (arith, length-filter-le p xs)

  pub length-take-le : (n : ℕ) (xs : List A) → length (take n xs) ≤ n
  length-take-le zero xs = omega arith
  length-take-le (suc n) [] = omega arith
  length-take-le (suc n) (x ∷ xs) = omega (arith, length-take-le n xs)

  pub take_of_length-le : (n : ℕ) (xs : List A) → length xs ≤ n → take n xs ≡ xs
  take_of_length-le (suc n) [] h = refl
  take_of_length-le zero [] h = refl
  take_of_length-le zero (x ∷ xs) h = absurd (omega arith)
  take_of_length-le (suc n) (x ∷ xs) h = rw (take_of_length-le n xs (omega arith))

  pub length-drop : (n : ℕ) (xs : List A) → n ≤ length xs → n + length (drop n xs) ≡ length xs
  length-drop zero xs h = omega arith
  length-drop (suc n) [] h = absurd (omega arith)
  length-drop (suc n) (x ∷ xs) h = omega (arith, length-drop n xs (omega arith))

  pub All-append {κ} : (P : A → Type κ) (xs ys : List A) → All P xs → All P ys → All P (xs ++ ys)
  All-append P [] ys h k = k
  All-append P (x ∷ xs) ys h k = (h.0, All-append P xs ys h.1 k)

  pub take-append-drop : (n : ℕ) (xs : List A) → take n xs ++ drop n xs ≡ xs
  take-append-drop zero xs = refl
  take-append-drop (suc n) [] = refl
  take-append-drop (suc n) (x ∷ xs) = rw (take-append-drop n xs)

  pub length-map {κ} : {B : Type κ} (xs : List A) (f : A → B) → length (map f xs) ≡ length xs
  length-map [] f = refl
  length-map (x ∷ xs) f = ap suc (length-map xs f)

module _ {ℓ κ} {A : Type ℓ} (P : A → Type κ) where
  pub All-take : (n : ℕ) (xs : List A) → All P xs → All P (take n xs)
  All-take zero xs h = tt
  All-take (suc n) [] h = tt
  All-take (suc n) (x ∷ xs) h = (h.0, All-take n xs h.1)

  pub All-drop : (n : ℕ) (xs : List A) → All P xs → All P (drop n xs)
  All-drop zero xs h = h
  All-drop (suc n) [] h = tt
  All-drop (suc n) (x ∷ xs) h = All-drop n xs h.1

pub map-reverse {ℓ κ} :
    {A : Type ℓ} {B : Type κ} (f : A → B) (xs : List A) → reverse (map f xs) ≡ map f (reverse xs)
map-reverse f [] = refl
map-reverse f (x ∷ xs) = simp (reverse-cons, map-append, map-reverse f xs)

module _ {κ} {A : Type 0} (P : A → Type κ) where
  -- What holds of all items holds of each.
  pub All-In : (a : A) (xs : List A) → All P xs → In a xs → P a
  All-In a [] h m = absurd m
  All-In a (x ∷ xs) h (inl here) = subst P (sym here) h.0
  All-In a (x ∷ xs) h (inr later) = All-In a xs h.1 later

  -- What holds of each item holds of all.
  pub All-of_In : (xs : List A) → ((a : A) → In a xs → P a) → All P xs
  All-of_In [] h = tt
  All-of_In (x ∷ xs) h = (h x (inl refl), All-of_In xs (λ a m. h a (inr m)))

module _ {A : Type 0} where
  pub In-append-left : (a : A) (xs ys : List A) → In a xs → In a (xs ++ ys)
  In-append-left a [] ys h = absurd h
  In-append-left a (x ∷ xs) ys (inl here) = inl here
  In-append-left a (x ∷ xs) ys (inr later) = inr (In-append-left a xs ys later)

  pub In-append-right : (a : A) (xs ys : List A) → In a ys → In a (xs ++ ys)
  In-append-right a [] ys h = h
  In-append-right a (x ∷ xs) ys h = inr (In-append-right a xs ys h)

module _ {A : Type 0} (p : A → Bool) where
  pub In-filter : (a : A) (xs : List A) → In a xs → p a ≡ true → In a (filter p xs)
  In-filter a [] m h = absurd m
  In-filter a (x ∷ xs) (inl here) h = ground arith
  In-filter a (x ∷ xs) (inr later) h = ground (arith, In-filter a xs later h)

  pub In-of_In-filter : (a : A) (xs : List A) → In a (filter p xs) → In a xs × (p a ≡ true)
  In-of_In-filter a [] m = absurd m
  In-of_In-filter a (x ∷ xs) m = elim (Bool-cases (p x)) [
    | inl kept ↦ elim (rw kept at m) [
      | inl here ↦ (inl here, rw here kept)
      | inr later ↦ let (inside, holds) = In-of_In-filter a xs later in (inr inside, holds)
    ]
    | inr dropped ↦
        let (inside, holds) = In-of_In-filter a xs (rw dropped at m) in (inr inside, holds)
  ]

module _ {A : Type 0} where
  pub positive_of_In : (x : A) (xs : List A) → In x xs → 0 < length xs
  positive_of_In x [] h = absurd h
  positive_of_In x (y ∷ xs) h = omega arith

  pub is_empty_of_positive : (xs : List A) → 0 < length xs → is_empty xs ≡ false
  is_empty_of_positive [] h = absurd (omega arith)
  is_empty_of_positive (x ∷ xs) h = refl
