-- ===== src/CostRouting/Bandit.antt =====
-- The bandit with a sliding window, router/bandit.rs: the rewards of each model, the oldest first.
pub mod Bounds
use neu_rust.Prelude.{
  ◌+◌, ◌∷◌, ◌++◌, ◌&&◌, ◌||◌, if◌then◌else◌, [], none, some, List, ℕ, get_or, length, ltb, min, not,
  leb, map, is_empty,
}
use neu_rust.Prelude.Keys.{text_eq, nat_eq}
use neu_rust.Prelude.Maps
use neu_rust.Prelude.Text.{Str}
use neu_rust.Prelude.Float.{Arithmetic, F64, f64_lt, f64_le}

abbrev pub max_arms : ℕ
max_arms = 1000

abbrev pub Arms : Type 0
Arms = List (Str × List F64)

pub record SlidingWindowUcb : Type 0 where
  pub window_size : ℕ
  pub arms : Arms
  pub total_observations : ℕ

unfoldable pub new : ℕ → SlidingWindowUcb
new window_size = record { window_size = window_size; arms = []; total_observations = 0 }

-- `min_by_key` of the number of observations: the first of the fewest.
unfoldable pub least_from : Str × List F64 → Arms → Str × List F64
least_from best [] = best
least_from best (x ∷ xs) = least_from (if ltb (length x.1) (length best.1) then x else best) xs

unfoldable pub evict_arm : Arms → Arms
unfolding least_from
evict_arm [] = []
evict_arm (x ∷ xs) = Maps.remove (least_from x xs).0 (x ∷ xs)

-- The arms with room for the model.
unfoldable pub make_arm_room : Str → Arms → Arms
unfolding evict_arm
make_arm_room model arms =
    if not (Maps.contains_key model arms) && leb max_arms (length arms)
    then evict_arm arms
    else arms

-- `while arm.len() > window_size { arm.pop_front(); }`
unfoldable pub trim_window : ℕ → List F64 → List F64
trim_window w [] = []
trim_window w (x ∷ xs) =
    let rest = trim_window w xs in if ltb w (length (x ∷ xs)) then rest else x ∷ xs

-- `saturating_add(1)` of a `u64`.
abbrev pub saturating_inc : ℕ → ℕ
saturating_inc n = min (n + 1) 0xffffffffffffffff

unfoldable pub update : SlidingWindowUcb → Str → F64 → SlidingWindowUcb
unfolding make_arm_room trim_window
update b model reward =
    let room = make_arm_room model b.arms in
    let arm = get_or (Maps.lookup model room) [] ++ reward ∷ [] in
    record b {
      arms = Maps.insert model (trim_window b.window_size arm) room;
      total_observations = saturating_inc b.total_observations;
    }

unfoldable pub arm_count : SlidingWindowUcb → Str → ℕ
arm_count b model = elim (Maps.lookup model b.arms) [ none ↦ 0 | some arm ↦ length arm ]

unfoldable pub total_requests : SlidingWindowUcb → ℕ
total_requests b = b.total_observations

-- The bits of 0.5 and 2.0.
abbrev half : F64
half = 0x3fe0000000000000

abbrev two : F64
two = 0x4000000000000000

module _ (ar : Arithmetic) where
  abbrev pub sum_of : List F64 → F64 → F64
  sum_of [] acc = acc
  sum_of (x ∷ xs) acc = sum_of xs (ar.add acc x)

  unfoldable pub get_score : SlidingWindowUcb → Str → F64
  get_score b model =
      let arm = get_or (Maps.lookup model b.arms) [] in
      let n = ar.of_nat (length arm) in
      let total = sum_of (map (λ a. ar.of_nat (length a.1)) b.arms) 0 in
      let mean = ar.div (sum_of arm 0) n in
      let ln_total = ar.ln total in
      let bonus = if f64_lt 0 ln_total then ar.sqrt (ar.div (ar.mul two ln_total) n) else 0 in
      if is_empty arm
      then half
      else if f64_le total 0 || f64_le n 0
      then half
      else ar.add mean bonus
