-- ===== src/Prelude/Sort.antt =====
-- `sort_by`, which is stable: an insertion sort that puts an earlier item before its equals.
use Prim.Native.Nat.{suc}
use mathlib.Core.Path.{◌≡◌, refl, ap, ◌∙◌}
use mathlib.Core.Logic.{◌⊎◌, inl, inr}
use mathlib.Core.Bool.{Bool, true}
use mathlib.Core.List.{List, [], ◌∷◌, Perm}
use mathlib.Core.List.Perm
use native.Mathlib.Omega.{arith}
use neu_rust.Prelude.Tests.{if◌then◌else◌, Bool-cases}
use neu_rust.Prelude.Lists.{length, All, In}

-- The comparison of a sort: reflexive on every pair in one direction or the other, and transitive.
pub record IsOrder {ℓ} {A : Type ℓ} (le : A → A → Bool) : Type ℓ where
  pub total : (a b : A) → (le a b ≡ true) ⊎ (le b a ≡ true)
  pub trans : (a b c : A) → le a b ≡ true → le b c ≡ true → le a c ≡ true

module _ {ℓ} {A : Type ℓ} (le : A → A → Bool) where
  unfoldable pub insert_by : A → List A → List A
  insert_by x [] = x ∷ []
  insert_by x (y ∷ ys) = if le x y then x ∷ y ∷ ys else y ∷ insert_by x ys

  unfoldable pub sort_by : List A → List A
  unfolding insert_by
  sort_by [] = []
  sort_by (x ∷ xs) = insert_by x (sort_by xs)

  -- Every item is at most each later one.
  abbrev pub IsSorted : List A → Type ℓ
  IsSorted [] = Unit
  IsSorted (x ∷ xs) = All (λ y. le x y ≡ true) xs × IsSorted xs

  pub length-insert_by : (x : A) (ys : List A) → length (insert_by x ys) ≡ suc (length ys)
  unfolding insert_by
  length-insert_by x [] = refl
  length-insert_by x (y ∷ ys) = ground (arith, length-insert_by x ys)

  pub length-sort_by : (xs : List A) → length (sort_by xs) ≡ length xs
  unfolding sort_by
  length-sort_by [] = refl
  length-sort_by (x ∷ xs) = omega (arith, length-insert_by x (sort_by xs), length-sort_by xs)

  insert_by-perm : (x : A) (ys : List A) → Perm (insert_by x ys) (x ∷ ys)
  unfolding insert_by
  insert_by-perm x [] = Perm.refl (x ∷ [])
  insert_by-perm x (y ∷ ys) = elim (Bool-cases (le x y)) [
    | inl here ↦ rw here (Perm.refl (x ∷ y ∷ ys))
    | inr later ↦ rw later (Perm.trans (Perm.cons y (insert_by-perm x ys)) (Perm.swap x y ys))
  ]

  -- A sort only reorders.
  pub sort_by-perm : (xs : List A) → Perm (sort_by xs) xs
  unfolding sort_by
  sort_by-perm [] = Perm.refl []
  sort_by-perm (x ∷ xs) = Perm.trans (insert_by-perm x (sort_by xs)) (Perm.cons x (sort_by-perm xs))

  module _ {κ} (P : A → Type κ) where
    pub All-insert_by : (x : A) (ys : List A) → P x → All P ys → All P (insert_by x ys)
    unfolding insert_by
    All-insert_by x [] p h = (p, tt)
    All-insert_by x (y ∷ ys) p h = elim (Bool-cases (le x y)) [
      | inl here ↦ rw here (p, h)
      | inr later ↦ rw later (h.0, All-insert_by x ys p h.1)
    ]

    pub All-sort_by : (xs : List A) → All P xs → All P (sort_by xs)
    unfolding sort_by
    All-sort_by [] h = tt
    All-sort_by (x ∷ xs) h = All-insert_by x (sort_by xs) h.0 (All-sort_by xs h.1)

  module _ (o : IsOrder le) where
    All-le_trans :
        (x y : A) (ys : List A)
        → le x y ≡ true
        → All (λ z. le y z ≡ true) ys
        → All (λ z. le x z ≡ true) ys
    All-le_trans x y [] p h = tt
    All-le_trans x y (z ∷ ys) p h = (o.trans x y z p h.0, All-le_trans x y ys p h.1)

    insert_by-IsSorted : (x : A) (ys : List A) → IsSorted ys → IsSorted (insert_by x ys)
    unfolding insert_by
    insert_by-IsSorted x [] h = (tt, tt)
    insert_by-IsSorted x (y ∷ ys) h = elim (Bool-cases (le x y)) [
      | inl here ↦ rw here ((here, All-le_trans x y ys here h.0), h)
      | inr later ↦ rw later (
        All-insert_by (λ z. le y z ≡ true) x ys (ground (arith, o.total x y)) h.0,
        insert_by-IsSorted x ys h.1,
      )
    ]

    pub sort_by-IsSorted : (xs : List A) → IsSorted (sort_by xs)
    unfolding sort_by
    sort_by-IsSorted [] = tt
    sort_by-IsSorted (x ∷ xs) = insert_by-IsSorted x (sort_by xs) (sort_by-IsSorted xs)

module _ {A : Type 0} (le : A → A → Bool) where
  In-insert_by : (a x : A) (ys : List A) → In a (x ∷ ys) → In a (insert_by le x ys)
  unfolding insert_by
  In-insert_by a x [] h = h
  In-insert_by a x (y ∷ ys) (inl here) = ground (arith, In-insert_by a x ys (inl here))
  In-insert_by a x (y ∷ ys) (inr (inl next)) = ground arith
  In-insert_by a x (y ∷ ys) (inr (inr later)) = ground (arith, In-insert_by a x ys (inr later))

  -- A sort loses nothing.
  pub In-sort_by : (a : A) (xs : List A) → In a xs → In a (sort_by le xs)
  unfolding sort_by
  In-sort_by a [] h = h
  In-sort_by a (x ∷ xs) (inl here) = In-insert_by a x (sort_by le xs) (inl here)
  In-sort_by a (x ∷ xs) (inr later) = In-insert_by a x (sort_by le xs) (inr (In-sort_by a xs later))

  In-of_In-insert_by : (a x : A) (ys : List A) → In a (insert_by le x ys) → In a (x ∷ ys)
  unfolding insert_by
  In-of_In-insert_by a x [] h = h
  In-of_In-insert_by a x (y ∷ ys) h = elim (Bool-cases (le x y)) [
    | inl first ↦ rw first at h
    | inr later ↦ elim (rw later at h) [
      | inl here ↦ inr (inl here)
      | inr rest ↦ elim (In-of_In-insert_by a x ys rest) [
        | inl here ↦ inl here
        | inr deeper ↦ inr (inr deeper)
      ]
    ]
  ]

  -- A sort adds nothing.
  pub In-of_In-sort_by : (a : A) (xs : List A) → In a (sort_by le xs) → In a xs
  unfolding sort_by
  In-of_In-sort_by a [] h = h
  In-of_In-sort_by a (x ∷ xs) h = elim (In-of_In-insert_by a x (sort_by le xs) h) [
    | inl here ↦ inl here
    | inr later ↦ inr (In-of_In-sort_by a xs later)
  ]

-- Two comparisons that agree on the items sort alike.
module _ {A : Type 0} (le other : A → A → Bool) (P : A → Type 0) where
  insert_by-agree :
      ((a b : A) → P a → P b → le a b ≡ other a b)
      → (x : A) (ys : List A) → P x
      → All P ys
      → insert_by le x ys ≡ insert_by other x ys
  unfolding insert_by
  insert_by-agree agree x [] p h = refl
  insert_by-agree agree x (y ∷ ys) p h = rw (agree x y p h.0, insert_by-agree agree x ys p h.1) refl

  pub sort_by-agree :
      ((a b : A) → P a → P b → le a b ≡ other a b)
      → (xs : List A) → All P xs
      → sort_by le xs ≡ sort_by other xs
  unfolding sort_by
  sort_by-agree agree [] h = refl
  sort_by-agree agree (x ∷ xs) h =
      insert_by-agree agree x (sort_by le xs) h.0 (All-sort_by le P xs h.1)
      ∙ ap (insert_by other x) (sort_by-agree agree xs h.1)
