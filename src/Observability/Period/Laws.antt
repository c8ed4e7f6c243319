-- ===== src/Observability/Period/Laws.antt =====
-- The period has begun.
use neu_rust.Prelude.{
  ◌≡◌, ◌≤◌, ◌<◌, ◌+◌, ◌*◌, ◌&&◌, ◌⊎◌, arith, ℕ, Bool, leb, inl, inr, ◌/◌, ◌%◌, ◌||◌, ◌≢◌, ◌==◌,
  true, false, Bool-cases, not,
}

-- The leap years of the Gregorian calendar: every fourth, but of the centuries only every fourth.
abbrev pub IsLeap : ℕ → Type 0
IsLeap y = ((q : ℕ) × (y ≡ 4 * q)) × (((q : ℕ) → y ≢ 100 * q) ⊎ ((q : ℕ) × (y ≡ 400 * q)))

abbrev pub HasThirty : ℕ → Type 0
HasThirty m = (m ≡ 4) ⊎ (m ≡ 6) ⊎ (m ≡ 9) ⊎ (m ≡ 11)

abbrev pub HasThirtyOne : ℕ → Type 0
HasThirtyOne m = (m ≡ 1) ⊎ (m ≡ 3) ⊎ (m ≡ 5) ⊎ (m ≡ 7) ⊎ (m ≡ 8) ⊎ (m ≡ 10) ⊎ (m ≡ 12)

-- The days of each month, from the calendar itself and not from the code.
pub data Days (y m : ℕ) : ℕ → Type 0 where
  thirty_one : HasThirtyOne m → Days y m 31
  thirty : HasThirty m → Days y m 30
  february : m ≡ 2 → ¬ IsLeap y → Days y m 28
  leap_february : m ≡ 2 → IsLeap y → Days y m 29

-- What is relied on: up to the last year that chrono has, the dates are those of the months' days.
abbrev pub IsCalendar : (ℕ → ℕ → ℕ → Bool) → Type 0
IsCalendar is_date =
    (y m d days : ℕ) → y ≤ 262142 → Days y m days → is_date y m d ≡ (leb 1 d && leb d days)

-- The test of the code on a year.
abbrev pub is_leap : ℕ → Bool
is_leap y = (y % 4 == 0) && (not (y % 100 == 0) || (y % 400 == 0))

pub IsLeap-of_test : (y : ℕ) → is_leap y ≡ true → IsLeap y
IsLeap-of_test y h = (
  (y / 4, ground arith),
  elim (Bool-cases (y % 400 == 0)) [
    | inl fourth ↦ inr (y / 400, ground arith)
    | inr other ↦ inl (λ q e. ground arith)
  ],
)

pub not_IsLeap-of_test : (y : ℕ) → is_leap y ≡ false → ¬ IsLeap y
not_IsLeap-of_test y h ((q, four), inl century) = elim (Bool-cases (y % 100 == 0)) [
  | inl hundred ↦ century (y / 100) (ground arith)
  | inr other ↦ ground arith
]
not_IsLeap-of_test y h ((q, four), inr (r, fourth)) = ground arith

-- The months since year 0.
abbrev pub months : ℕ → ℕ → ℕ
months y m = y * 12 + m

-- The first date is not after the second.
abbrev pub NotAfter : ℕ × ℕ × ℕ → ℕ × ℕ × ℕ → Type 0
NotAfter (y, m, d) (y', m', d') =
    (months y m < months y' m') ⊎ ((months y m ≡ months y' m') × (d ≤ d'))
