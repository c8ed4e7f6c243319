-- ===== src/CostRouting/Bandit/Bounds.antt =====
-- The memory of the bandit is bounded, and its window slides.
use neu_rust.Prelude.{
  if-both, ◌≤◌, ◌<◌, ◌∷◌, [], refl, arith, inl, inr, ◌≡◌, ◌-◌, true, false, length, ℕ, List, All,
  Bool-cases, In, drop, leb, ltb, ◌++◌, if◌then◌else◌, zero, suc, some, sym, get_or, ◌&&◌, ◌∙◌, ap,
  not,
}
use neu_rust.Prelude.Keys.{text_eq, nat_eq}
use neu_rust.Prelude.Maps
use neu_rust.CostRouting.Bandit.{
  new, SlidingWindowUcb, evict_arm, least_from, make_arm_room, trim_window, Arms, max_arms, update,
}
use neu_rust.Prelude.Text.{Str}
use neu_rust.Prelude.Float.{F64}

-- The arm is no longer than the window.
abbrev pub Fits : ℕ → Str × List F64 → Type 0
Fits w a = length a.1 ≤ w

pub record IsSmall (b : SlidingWindowUcb) : Type 0 where
  pub distinct : Maps.Distinct b.arms
  pub few : length b.arms ≤ max_arms
  pub windows : All (Fits b.window_size) b.arms

length-trim_window-le : (w : ℕ) (xs : List F64) → length (trim_window w xs) ≤ w
unfolding trim_window
length-trim_window-le w [] = omega arith
length-trim_window-le w (x ∷ xs) = ground (arith, length-trim_window-le w xs)

least_from-In : (x : Str × List F64) (xs : Arms) → In (least_from x xs) (x ∷ xs)
unfolding least_from
least_from-In x [] = inl refl
least_from-In x (y ∷ xs) =
    ground (arith, least_from-In (if ltb (length y.1) (length x.1) then y else x) xs)

length-evict_arm-lt : (m : Arms) → Maps.Distinct m → 0 < length m → length (evict_arm m) < length m
unfolding evict_arm
length-evict_arm-lt [] d h = absurd (omega arith)
length-evict_arm-lt (x ∷ xs) d h =
    Maps.length-remove-lt (least_from x xs).0 (x ∷ xs) (least_from x xs).1
      (Maps.lookup_of_In (least_from x xs) (x ∷ xs) d (least_from-In x xs))

Distinct-make_arm_room :
    (model : Str) (m : Arms) → Maps.Distinct m → Maps.Distinct (make_arm_room model m)
unfolding make_arm_room evict_arm
Distinct-make_arm_room model [] d = ground arith
Distinct-make_arm_room model (x ∷ xs) d =
    ground (arith, Maps.Distinct-remove (least_from x xs).0 (x ∷ xs) d)

length-make_arm_room :
    (model : Str) (m : Arms)
    → Maps.Distinct m
    → length m ≤ max_arms
    → Maps.contains_key model m ≡ false
    → length (make_arm_room model m) < max_arms
unfolding make_arm_room
length-make_arm_room model m d h absent = elim (Bool-cases (leb max_arms (length m))) [
  | inl full ↦
      rw (absent, full)
        (let less = length-evict_arm-lt m d (ground arith) in omega (arith, less, h))
  | inr room ↦ rw (absent, room) (ground arith)
]

make_arm_room_of_known :
    (model : Str) (m : Arms) → Maps.contains_key model m ≡ true → make_arm_room model m ≡ m
unfolding make_arm_room
make_arm_room_of_known model m known = rw known refl

drop-nil : (n : ℕ) → drop {A = F64} n [] ≡ []
drop-nil zero = refl
drop-nil (suc n) = refl

drop_of_zero : (n : ℕ) (xs : List F64) → n ≡ 0 → drop n xs ≡ xs
drop_of_zero zero xs h = refl
drop_of_zero (suc n) xs h = absurd (omega (arith, h))

trim_window_lem : (w : ℕ) (xs : List F64) → trim_window w xs ≡ drop (length xs - w) xs
unfolding trim_window
trim_window_lem w [] = sym (drop-nil (0 - w))
trim_window_lem w (x ∷ xs) = elim (Bool-cases (ltb w (length (x ∷ xs)))) [
  | inl long ↦
      let step : length (x ∷ xs) - w ≡ suc (length xs - w) = ground arith in
      rw (long, step) (trim_window_lem w xs)
  | inr short ↦ rw short (sym (drop_of_zero (length (x ∷ xs) - w) (x ∷ xs) (ground arith)))
]

lookup-make_arm_room :
    (model : Str) (m : Arms) → Maps.lookup model (make_arm_room model m) ≡ Maps.lookup model m
unfolding make_arm_room evict_arm
lookup-make_arm_room model [] = ground arith
lookup-make_arm_room model (x ∷ xs) =
    ground (arith, Maps.lookup-remove (least_from x xs).0 model (x ∷ xs))

All-make_arm_room :
    (w : ℕ) (model : Str) (m : Arms) → All (Fits w) m → All (Fits w) (make_arm_room model m)
unfolding make_arm_room evict_arm
All-make_arm_room w model [] h = ground arith
All-make_arm_room w model (x ∷ xs) h =
    if-both (All (Fits w))
      (not (Maps.contains_key model (x ∷ xs)) && leb max_arms (length (x ∷ xs)))
      (Maps.All-remove (Fits w) (least_from x xs).0 (x ∷ xs) h) h

-- The observations of a model are the last `window_size` of all that it had and the new one, after
-- each update, whether or not another arm had to go.
pub update_window :
    (b : SlidingWindowUcb) (model : Str) (reward : F64)
    → let seen = get_or (Maps.lookup model b.arms) [] ++ reward ∷ [] in
      Maps.lookup model (update b model reward).arms
      ≡ some (drop (length seen - b.window_size) seen)
unfolding update
update_window b model reward =
    let arm = get_or (Maps.lookup model b.arms) [] ++ reward ∷ [] in
    rw (lookup-make_arm_room model b.arms) (
      Maps.lookup-insert_self model (trim_window b.window_size arm) (make_arm_room model b.arms)
      ∙ ap some (trim_window_lem b.window_size arm))

length-insert_room :
    (model : Str) (arm : List F64) (m : Arms)
    → Maps.Distinct m
    → length m ≤ max_arms
    → length (Maps.insert model arm (make_arm_room model m)) ≤ max_arms
length-insert_room model arm m d h = elim (Bool-cases (Maps.contains_key model m)) [
  | inl known ↦
      rw (make_arm_room_of_known model m known)
        (let same = Maps.length-insert model arm m in ground arith)
  | inr unknown ↦
      let room = length-make_arm_room model m d h unknown in
      let more = Maps.length-insert-le model arm (make_arm_room model m) in
      omega (arith, room, more)
]

update-IsSmall :
    (b : SlidingWindowUcb) (model : Str) (reward : F64)
    → IsSmall b
    → IsSmall (update b model reward)
unfolding update
update-IsSmall b model reward h =
    let room = make_arm_room model b.arms in
    let arm = trim_window b.window_size (get_or (Maps.lookup model room) [] ++ reward ∷ []) in
    record {
      distinct =
          Maps.Distinct-insert model arm room (Distinct-make_arm_room model b.arms h.distinct);
      few = length-insert_room model arm b.arms h.distinct h.few;
      windows =
          Maps.All-insert (Fits b.window_size) model arm room
            (length-trim_window-le b.window_size _)
            (All-make_arm_room b.window_size model b.arms h.windows);
    }

-- The updates of a bandit, one after the other.
unfoldable pub updates : SlidingWindowUcb → List (Str × F64) → SlidingWindowUcb
updates b [] = b
updates b (o ∷ os) = updates (update b o.0 o.1) os

updates-IsSmall_from :
    (b : SlidingWindowUcb) (os : List (Str × F64)) → IsSmall b → IsSmall (updates b os)
unfolding updates
updates-IsSmall_from b [] h = h
updates-IsSmall_from b (o ∷ os) h =
    updates-IsSmall_from (update b o.0 o.1) os (update-IsSmall b o.0 o.1 h)

-- Whatever is observed, a bandit that starts empty has at most `MAX_ARMS` arms, no model twice, and
-- no arm has more observations than the window.
pub updates-IsSmall :
    (window_size : ℕ) (os : List (Str × F64)) → IsSmall (updates (new window_size) os)
unfolding new
updates-IsSmall window_size os =
    updates-IsSmall_from _ os (record { distinct = tt; few = omega arith; windows = tt })
