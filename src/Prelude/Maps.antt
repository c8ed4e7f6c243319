-- ===== src/Prelude/Maps.antt =====
-- Rust's hash maps as association lists; the order of the list is the order of iteration.
use Prim.Native.Nat.{suc, ◌≤◌, ◌<◌}
use mathlib.Core.Path.{◌≡◌, refl, subst₂}
use mathlib.Core.Logic.{◌≢◌, inl, inr}
use mathlib.Core.Bool.{Bool, false, ◌||◌}
use mathlib.Core.Option.{Option, none, some}
use mathlib.Core.List.{List, [], ◌∷◌, map}
use native.Mathlib.Omega.{arith}
use neu_rust.Prelude.Tests.{if◌then◌else◌, Bool-cases, is_some}
use neu_rust.Prelude.Lists.{length, All, In}
use neu_rust.Prelude.Keys.{Eq, beq_self}

abbrev pub keys {ℓ κ} : {K : Type ℓ} {V : Type κ} → List (K × V) → List K
keys m = map (λ e. e.0) m

module _ {ℓ κ} {K : Type ℓ} {V : Type κ} ⦃e : Eq K⦄ where
  unfoldable pub lookup : K → List (K × V) → Option V
  lookup k [] = none
  lookup k ((j, v) ∷ m) = if e.beq j k then some v else lookup k m

  abbrev pub contains_key : K → List (K × V) → Bool
  contains_key k m = is_some (lookup k m)

  -- A new key goes to the end, a known one keeps its place.
  unfoldable pub insert : K → V → List (K × V) → List (K × V)
  insert k v [] = (k, v) ∷ []
  insert k v ((j, w) ∷ m) = if e.beq j k then (k, v) ∷ m else (j, w) ∷ insert k v m

  unfoldable pub remove : K → List (K × V) → List (K × V)
  remove k [] = []
  remove k ((j, w) ∷ m) = if e.beq j k then remove k m else (j, w) ∷ remove k m

  -- `for key in keys { map.remove(key) }`.
  unfoldable pub remove_all : List K → List (K × V) → List (K × V)
  remove_all [] m = m
  remove_all (k ∷ ks) m = remove_all ks (remove k m)

  -- No key stands twice.
  abbrev pub Distinct : List (K × V) → Type κ
  Distinct [] = Unit
  Distinct ((k, v) ∷ m) = (lookup k m ≡ none) × Distinct m

  pub lookup-insert :
      (k j : K) (v : V) (m : List (K × V))
      → lookup j (insert k v m) ≡ (if e.beq k j then some v else lookup j m)
  unfolding lookup insert
  lookup-insert k j v [] = refl
  lookup-insert k j v ((i, w) ∷ m) =
      ground (arith, e.beq_iff k j, e.beq_iff i k, e.beq_iff i j, lookup-insert k j v m)

  pub lookup-remove :
      (k j : K) (m : List (K × V))
      → lookup j (remove k m) ≡ (if e.beq k j then none else lookup j m)
  unfolding lookup remove
  lookup-remove k j [] = ground arith
  lookup-remove k j ((i, w) ∷ m) =
      ground (arith, e.beq_iff k j, e.beq_iff i k, e.beq_iff i j, lookup-remove k j m)

  pub lookup-insert_self : (k : K) (v : V) (m : List (K × V)) → lookup k (insert k v m) ≡ some v
  lookup-insert_self k v m = rw (lookup-insert, beq_self)

  pub lookup-insert_ne :
      (k j : K) (v : V) (m : List (K × V)) → k ≢ j → lookup j (insert k v m) ≡ lookup j m
  lookup-insert_ne k j v m h = ground (arith, lookup-insert k j v m, e.beq_iff k j)

  pub lookup-remove_self : (k : K) (m : List (K × V)) → lookup k (remove k m) ≡ none
  lookup-remove_self k m = rw (lookup-remove, beq_self)

  pub lookup-remove_ne : (k j : K) (m : List (K × V)) → k ≢ j → lookup j (remove k m) ≡ lookup j m
  lookup-remove_ne k j m h = ground (arith, lookup-remove k j m, e.beq_iff k j)

  pub Distinct-insert : (k : K) (v : V) (m : List (K × V)) → Distinct m → Distinct (insert k v m)
  unfolding lookup insert
  Distinct-insert k v [] d = (refl, tt)
  Distinct-insert k v ((i, w) ∷ m) d =
      ground (arith, e.beq_iff i k, e.beq_iff k i, lookup-insert k i v m, Distinct-insert k v m)

  pub Distinct-remove : (k : K) (m : List (K × V)) → Distinct m → Distinct (remove k m)
  unfolding remove
  Distinct-remove k [] d = tt
  Distinct-remove k ((i, w) ∷ m) d = ground (arith, lookup-remove k i m, Distinct-remove k m)

  pub remove_absent : (k : K) (m : List (K × V)) → lookup k m ≡ none → remove k m ≡ m
  unfolding lookup remove
  remove_absent k [] h = refl
  remove_absent k ((i, w) ∷ m) h = ground (arith, remove_absent k m)

  pub length-insert :
      (k : K) (v : V) (m : List (K × V))
      → length (insert k v m) ≡ (if contains_key k m then length m else suc (length m))
  unfolding lookup insert
  length-insert k v [] = refl
  length-insert k v ((i, w) ∷ m) = ground (arith, length-insert k v m)

  pub length-insert-le : (k : K) (v : V) (m : List (K × V)) → length (insert k v m) ≤ suc (length m)
  length-insert-le k v m = ground (arith, length-insert k v m)

  pub length-remove-le : (k : K) (m : List (K × V)) → length (remove k m) ≤ length m
  unfolding remove
  length-remove-le k [] = arith_refl
    where
      arith_refl : length {A = K × V} [] ≤ 0
      arith_refl = omega arith
  length-remove-le k ((i, w) ∷ m) = ground (arith, length-remove-le k m)

  -- On distinct keys a removal takes exactly one entry away, if the key is there.
  pub length-remove :
      (k : K) (m : List (K × V))
      → Distinct m
      → length m ≡ (if contains_key k m then suc (length (remove k m)) else length (remove k m))
  unfolding lookup remove
  length-remove k [] d = refl
  length-remove k ((i, w) ∷ m) d =
      ground (arith, e.beq_iff i k, length-remove k m, remove_absent k m)

  module _ {μ} (P : K × V → Type μ) where
    pub All-insert : (k : K) (v : V) (m : List (K × V)) → P (k, v) → All P m → All P (insert k v m)
    unfolding insert
    All-insert k v [] p h = (p, tt)
    All-insert k v ((i, w) ∷ m) p h = elim (Bool-cases (e.beq i k)) [
      | inl same ↦ rw same (p, h.1)
      | inr other ↦ rw other (h.0, All-insert k v m p h.1)
    ]

    pub All-remove : (k : K) (m : List (K × V)) → All P m → All P (remove k m)
    unfolding remove
    All-remove k [] h = tt
    All-remove k ((i, w) ∷ m) h = elim (Bool-cases (e.beq i k)) [
      | inl same ↦ rw same (All-remove k m h.1)
      | inr other ↦ rw other (h.0, All-remove k m h.1)
    ]

abbrev pub has_key {ℓ} : {K : Type ℓ} ⦃e : Eq K⦄ → K → List K → Bool
has_key k [] = false
has_key ⦃e⦄ k (j ∷ ks) = e.beq j k || has_key k ks

module _ {K V : Type 0} ⦃e : Eq K⦄ where
  -- A removal of a key that is there leaves fewer entries.
  pub length-remove-lt :
      (k : K) (m : List (K × V)) (v : V) → lookup k m ≡ some v → length (remove k m) < length m
  unfolding lookup remove
  length-remove-lt k [] v h = cc
  length-remove-lt k ((i, w) ∷ m) v h = ground (arith, length-remove-lt k m v, length-remove-le k m)

  -- What stands in the list is found, if no key stands twice.
  pub lookup_of_In : (p : K × V) (m : List (K × V)) → Distinct m → In p m → lookup p.0 m ≡ some p.1
  unfolding lookup
  lookup_of_In p [] d h = absurd h
  lookup_of_In p ((i, w) ∷ m) d (inl here) = ground (arith, e.beq_iff i p.0)
  lookup_of_In p ((i, w) ∷ m) d (inr later) =
      ground (arith, e.beq_iff i p.0, lookup_of_In p m d.1 later)

  -- A property of all entries holds of the one that is found.
  pub All-lookup {μ} :
      (P : K × V → Type μ) (k : K) (m : List (K × V)) (v : V)
      → All P m
      → lookup k m ≡ some v
      → P (k, v)
  unfolding lookup
  All-lookup P k [] v h f = cc
  All-lookup P k ((i, w) ∷ m) v h f = elim (Bool-cases (e.beq i k)) [
    | inl same ↦
        let key : i ≡ k = (e.beq_iff i k).0 same in
        let val : w ≡ v = ground arith in subst₂ (λ x y. P (x, y)) key val h.0
    | inr other ↦ All-lookup P k m v h.1 (ground arith)
  ]

  pub Distinct-remove_all :
      (ks : List K) (m : List (K × V)) → Distinct m → Distinct (remove_all ks m)
  unfolding remove_all
  Distinct-remove_all [] m d = d
  Distinct-remove_all (k ∷ ks) m d = Distinct-remove_all ks (remove k m) (Distinct-remove k m d)

  pub length-remove_all-le : (ks : List K) (m : List (K × V)) → length (remove_all ks m) ≤ length m
  unfolding remove_all
  length-remove_all-le [] m = omega arith
  length-remove_all-le (k ∷ ks) m =
      omega (arith, length-remove_all-le ks (remove k m), length-remove-le k m)

  pub lookup-remove_all :
      (ks : List K) (j : K) (m : List (K × V))
      → lookup j (remove_all ks m) ≡ (if has_key j ks then none else lookup j m)
  unfolding remove_all
  lookup-remove_all [] j m = refl
  lookup-remove_all (k ∷ ks) j m =
      ground (arith, lookup-remove_all ks j (remove k m), lookup-remove k j m)
