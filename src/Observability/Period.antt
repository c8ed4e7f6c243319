-- ===== src/Observability/Period.antt =====
-- The start of the billing period, observability/budget_manager.rs. Which dates there are is known
-- to the crate chrono: a test on year, month and day.
pub mod Laws
use neu_rust.Prelude.{
  ◌-◌, ◌%◌, ◌&&◌, ◌||◌, ◌==◌, if◌then◌else◌, none, some, ℕ, Bool, leb, not, Option,
}

unfoldable pub last_day_of_month : ℕ → ℕ → ℕ
last_day_of_month year month =
    if month == 2
    then if (year % 4 == 0) && (not (year % 100 == 0) || (year % 400 == 0)) then 29 else 28
    else if (month == 4) || ((month == 6) || ((month == 9) || (month == 11)))
    then 30
    else if (leb 1 month) && leb month 12
    then 31
    else 30

-- The year and the month of the period that today is in.
unfoldable pub period_month : ℕ → ℕ → ℕ → ℕ → ℕ × ℕ
period_month reset_day year month day =
    if leb reset_day day
    then (year, month)
    else if month == 1
    then (year - 1, 12)
    else (year, month - 1)

-- The first date of the period that starts in a month; `none` is the panic of `expect`.
unfoldable pub start_in : (ℕ → ℕ → ℕ → Bool) → ℕ → ℕ → ℕ → Option (ℕ × ℕ × ℕ)
unfolding last_day_of_month
start_in is_date reset_day y m =
    let last = last_day_of_month y m in
    if is_date y m reset_day
    then some (y, m, reset_day)
    else if is_date y m last
    then some (y, m, last)
    else none

unfoldable pub billing_period_start : (ℕ → ℕ → ℕ → Bool) → ℕ → ℕ → ℕ → ℕ → Option (ℕ × ℕ × ℕ)
unfolding start_in period_month
billing_period_start is_date reset_day year month day =
    let (y, m) = period_month reset_day year month day in start_in is_date reset_day y m
