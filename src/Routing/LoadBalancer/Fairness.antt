-- ===== src/Routing/LoadBalancer/Fairness.antt =====
-- Round robin: which provider each request of a series gets.
use neu_rust.Prelude.{
  ◌≡◌, ◌<◌, ◌+◌, ◌%◌, ◌∷◌, [], refl, arith, false, zero, suc, none, some, List, ℕ, get_elem?,
  length, is_empty, All, ◌-◌, ◌∙◌, ap, ◌*◌, ◌/◌, sym,
}
use neu_rust.Routing.Provider.{Provider}
use native.Mathlib.Nat.{mod-lt, div-add-mod, add-mod-mod, add-mul-mod_self_left, mod-eq_of_lt}
use neu_rust.Contracts.{UnifiedRequest}
use neu_rust.Prelude.Text.{Str}
use neu_rust.Routing.LoadBalancer.{balance, balance_all, matching, usize_mod, balance_among}

-- The request, with the provider chosen.
abbrev pub routed : {S : Type 0} → UnifiedRequest → Provider S → UnifiedRequest
routed r p = record r { model = record (r.model) { provider_id = some p.name } }

-- A request for the model that names no provider.
pub record IsOpen (model : Str) (r : UnifiedRequest) : Type 0 where
  pub unrouted : r.model.provider_id ≡ none
  pub same : r.model.model_name ≡ model

get_elem?_any :
    {A : Type 0} (i : ℕ) (xs : List A) → i < length xs → (a : A) × (get_elem? xs i ≡ some a)
get_elem?_any i [] h = absurd (omega arith)
get_elem?_any zero (x ∷ xs) h = (x, refl)
get_elem?_any (suc i) (x ∷ xs) h = get_elem?_any i xs (omega arith)

lt-length_of_get_elem? :
    {A : Type 0} (i : ℕ) (xs : List A) (a : A) → get_elem? xs i ≡ some a → i < length xs
lt-length_of_get_elem? i [] a h = cc
lt-length_of_get_elem? zero (x ∷ xs) a h = omega arith
lt-length_of_get_elem? (suc i) (x ∷ xs) a h = omega (arith, lt-length_of_get_elem? i xs a h)

-- The place in the series at which the counter comes round to `j`.
round_index : (c j n : ℕ) → j < n → (c + (j + n - c % n) % n) % n ≡ j
round_index c j n h =
    let low : c % n < n = mod-lt c (omega arith) in
    let split : c ≡ n * (c / n) + c % n = sym (div-add-mod c n) in
    let sum : c + (j + n - c % n) ≡ j + n * (c / n + 1) = grind arith in
    add-mod-mod c (j + n - c % n) n
    ∙ (ap (λ t. t % n) sum ∙ (add-mul-mod_self_left j n (c / n + 1) ∙ mod-eq_of_lt h))

module _ {S : Type 0} (providers : List (Provider S)) where
  length-pos :
      (ps : List (Provider S)) (k : ℕ) (q : Provider S) → get_elem? ps k ≡ some q → 0 < length ps
  length-pos [] k q h = cc
  length-pos (y ∷ ps) k q h = omega arith

  is_empty_of_get_elem? :
      (i : ℕ) (ps : List (Provider S)) (p : Provider S)
      → get_elem? ps i ≡ some p
      → is_empty ps ≡ false
  is_empty_of_get_elem? i [] p h = cc
  is_empty_of_get_elem? i (x ∷ ps) p h = refl

  balance_among_lem :
      (found : List (Provider S)) (counter : ℕ) (r : UnifiedRequest) (p : Provider S)
      → r.model.provider_id ≡ none
      → get_elem? found (counter % length found) ≡ some p
      → balance_among found counter r ≡ ((counter + 1) % usize_mod, routed r p)
  unfolding balance_among
  balance_among_lem found counter r p unrouted h =
      ground (arith, is_empty_of_get_elem? (counter % length found) found p h)

  balance_lem :
      (model : Str) (counter : ℕ) (r : UnifiedRequest) (p : Provider S)
      → IsOpen model r
      → get_elem? (matching providers model) (counter % length (matching providers model)) ≡ some p
      → balance providers counter r ≡ ((counter + 1) % usize_mod, routed r p)
  unfolding balance
  balance_lem model counter r p open_request h =
      ap (λ m. balance_among (matching providers m) counter r) open_request.same
      ∙ balance_among_lem (matching providers model) counter r p open_request.unrouted h

  -- The request at place `i` of a series goes to the provider at place `counter + i`, modulo their
  -- number, as long as the counter does not wrap.
  balance_all-get_elem? :
      (model : Str) (counter i : ℕ) (rs : List UnifiedRequest) (r : UnifiedRequest) (p : Provider S)
      → counter + length rs < usize_mod
      → All (IsOpen model) rs
      → get_elem? rs i ≡ some r
      → get_elem? (matching providers model) ((counter + i) % length (matching providers model))
        ≡ some p
      → get_elem? (balance_all providers counter rs) i ≡ some (routed r p)
  unfolding balance_all
  balance_all-get_elem? model counter i [] r p room opened here target = cc
  balance_all-get_elem? model counter zero (x ∷ rs) r p room opened here target =
      let at_start : counter + 0 ≡ counter = omega arith in
      ground (arith, balance_lem model counter x p opened.0 (rw at_start at target))
  balance_all-get_elem? model counter (suc i) (x ∷ rs) r p room opened here target =
      let found : List (Provider S) = matching providers model in
      let (q, chosen) =
        get_elem?_any (counter % length found) found
          (mod-lt counter (length-pos found ((counter + suc i) % length found) p target)) in
      let next : (counter + 1) % usize_mod ≡ counter + 1 = mod-eq_of_lt (omega arith) in
      let shift : counter + suc i ≡ counter + 1 + i = omega arith in
      let later =
        balance_all-get_elem? model (counter + 1) i rs r p (omega arith) opened.1 here
          (rw shift at target) in
      rw (balance_lem model counter x q opened.0 chosen, next) later

  -- Of a series of open requests as long as the list of the matching providers, where the counter
  -- does not wrap, every matching provider gets one: the balancer is fair.
  pub balance_all_fair :
      (model : Str) (counter j : ℕ) (rs : List UnifiedRequest) (p : Provider S)
      → counter + length rs < usize_mod
      → length rs ≡ length (matching providers model)
      → All (IsOpen model) rs
      → get_elem? (matching providers model) j ≡ some p
      → (i : ℕ) × (r : UnifiedRequest) × (get_elem? rs i ≡ some r)
        × (get_elem? (balance_all providers counter rs) i ≡ some (routed r p))
  balance_all_fair model counter j rs p room same opened place =
      let n : ℕ = length (matching providers model) in
      let i : ℕ = (j + n - counter % n) % n in
      let inside : j < n = lt-length_of_get_elem? j (matching providers model) p place in
      let low : i < n = mod-lt (j + n - counter % n) (omega arith) in
      let (r, here) = get_elem?_any i rs (omega arith) in
      (
        i,
        r,
        here,
        balance_all-get_elem? model counter i rs r p room opened here
            (rw (round_index counter j n inside) place),
      )
