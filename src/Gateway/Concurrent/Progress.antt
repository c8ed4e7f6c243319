-- ===== src/Gateway/Concurrent/Progress.antt =====
-- The calls in flight come to an end.
use neu_rust.Prelude.{
  ◌≡◌, ◌≤◌, ◌<◌, ◌∷◌, ◌++◌, [], zero, suc, refl, arith, inl, inr, List, ℕ, Option-cases,
}
use neu_rust.Prelude.Keys.{nat_eq, text_eq}
use neu_rust.Cache.Tiered.{Semantic}
use neu_rust.Cache.Key.{Hasher}
use neu_rust.Gateway.Inference.{Gateway, Clock, lookup_in, to_unified_request}
use neu_rust.Gateway.Inference.Laws.{Result-cases}
use neu_rust.Gateway.Concurrent.{
  Task, System, running, looking, announcing_hit, asking, opening, failing, storing, spawning,
  announcing, recording, advance, Move, pick,
}
use neu_rust.Gateway.Concurrent.Tally.{total, total-append}
use neu_rust.Routing.Provider.{Provider, ProviderConfig}

-- How many steps a task has left at most, with those of the task that it spawns.
abbrev pub work : {S : Type 0} → Task S → ℕ
work (looking p q) = 6
work (asking p r) = 5
work (storing r a) = 4
work (spawning a) = 3
work (opening p r) = 2
work (announcing_hit model) = 1
work failing = 1
work (announcing a) = 1
work (recording e) = 1

module _ {S C : Type 0} (sem : Semantic C) (h : Hasher) (configs : List ProviderConfig)
    (providers : List (Provider S)) where
  -- Moves of the tasks, one after the other, with no arrival between them.
  pub data Moves (s : System S C) : ℕ → System S C → Type 0 where
    none_yet : Moves s 0 s
    then_move :
        {n : ℕ} {t u : System S C}
        → Moves s n t
        → Move sem h configs providers t u
        → Moves s (suc n) u

  -- A step uses one up.
  advance-work :
      (c : Clock) (t : Task S) (g : Gateway S C)
      → total work (advance sem h configs providers c t g).1 < work t
  unfolding advance
  advance-work c (looking p q) g =
      elim (Option-cases (lookup_in sem h c.now g.cache (to_unified_request q)).1) [
        | inl missed ↦ rw (advance, missed) (omega arith)
        | inr (a, hit) ↦ rw (advance, hit) (omega arith)
      ]
  advance-work c (asking p r) g = elim (Result-cases (p.complete r g.world).0) [
    | inl (a, answered) ↦ rw (advance, answered) (omega arith)
    | inr (e, failed) ↦ rw (advance, failed) (omega arith)
  ]
  advance-work c (opening p r) g = elim (Result-cases (p.complete_stream r g.world).0) [
    | inl (chunks, answered) ↦ rw (advance, answered) (omega arith)
    | inr (e, failed) ↦ rw (advance, failed) (omega arith)
  ]
  advance-work c (announcing_hit model) g = omega arith
  advance-work c failing g = omega arith
  advance-work c (storing r a) g = omega arith
  advance-work c (spawning a) g = omega arith
  advance-work c (announcing a) g = omega arith
  advance-work c (recording e) g = omega arith

  work_pos : (t : Task S) → 0 < work t
  work_pos (looking p q) = omega arith
  work_pos (asking p r) = omega arith
  work_pos (storing r a) = omega arith
  work_pos (spawning a) = omega arith
  work_pos (opening p r) = omega arith
  work_pos (announcing_hit model) = omega arith
  work_pos failing = omega arith
  work_pos (announcing a) = omega arith
  work_pos (recording e) = omega arith

  -- From any state the first task can be moved, again and again, until none is left.
  finish :
      (fuel : ℕ) (c : Clock) {s : System S C} {n : ℕ} (g : Gateway S C) (ts : List (Task S))
      → total work ts ≤ fuel
      → Moves s n (running g ts)
      → (m : ℕ) × (u : System S C) × Moves s m u × (u.tasks ≡ [])
  finish fuel c {n = n} g [] enough ms = (n, running g [], ms, refl)
  finish zero c g (t ∷ ts) enough ms = absurd (omega (arith, work_pos t))
  finish (suc fuel) c g (t ∷ ts) enough ms =
      let (g', us) = advance sem h configs providers c t g in
      finish fuel c g' (us ++ ts) (omega (arith, advance-work c t g, total-append work us ts))
        (then_move ms (pick c t [] ts refl))
