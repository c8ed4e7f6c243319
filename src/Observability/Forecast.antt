-- ===== src/Observability/Forecast.antt =====
-- The forecast of costs, observability/cost_forecaster.rs, from any event store. The arithmetic of
-- doubles is an interface; the date of today is an argument.
use neu_rust.Prelude.{
  map, ◌+◌, ◌-◌, ◌%◌, ◌∷◌, ◌&&◌, ◌||◌, ◌==◌, if◌then◌else◌, [], zero, suc, none, some, ℕ, List, not,
  leb, length, ltb, get_or, head?,
}
use neu_rust.Prelude.Text.{Str, utf8}
use neu_rust.Prelude.Float.{Arithmetic, F64, f64_le, f64_lt, f64_max, magnitude}
use neu_rust.Stores.EventStore.{EventStore}

pub data CostTrend : Type 0 where
  rising stable falling : CostTrend

abbrev pub trend_text : CostTrend → Str
trend_text rising = utf8 "rising"
trend_text stable = utf8 "stable"
trend_text falling = utf8 "falling"

pub record ForecastConfig : Type 0 where
  pub confidence_interval : F64
  pub forecast_horizon_days : ℕ

-- `ForecastConfig::default()`: 0.85 and 30 days.
abbrev pub default_forecast : ForecastConfig
default_forecast = record { confidence_interval = 0x3feb333333333333; forecast_horizon_days = 30 }

-- A forecast, without the text of its date.
pub record CostForecast : Type 0 where
  pub estimated_monthly_cost : F64
  pub lower_bound : F64
  pub upper_bound : F64
  pub confidence_level : F64
  pub trend : CostTrend
  pub data_points : ℕ

-- The outcomes: a forecast, the error of the store, or too few days.
pub data ForecastResult : Type 0 where
  forecasted : CostForecast → ForecastResult
  store_failed : ForecastResult
  insufficient : ℕ → ForecastResult

abbrev pub z_score : F64 → F64
z_score confidence =
    if f64_le 0x3fefae147ae147ae confidence
    then 0x40049ba5e353f7cf
    else if f64_le 0x3fee666666666666 confidence
    then 0x3fff5c28f5c28f5c
    else if f64_le 0x3feccccccccccccd confidence
    then 0x3ffa51eb851eb852
    else if f64_le 0x3feb333333333333 confidence
    then 0x3ff70a3d70a3d70a
    else if f64_le 0x3fe999999999999a confidence
    then 0x3ff483126e978d50
    else 0x3ff0000000000000

abbrev pub days_in_month : ℕ → ℕ → ℕ
days_in_month year month =
    if (month == 4) || ((month == 6) || ((month == 9) || (month == 11)))
    then 30
    else if month == 2
    then (if (year % 4 == 0) && (not (year % 100 == 0) || (year % 400 == 0)) then 29 else 28)
    else if leb 1 month && leb month 12
    then 31
    else 30

abbrev pub days_until_month_end : ℕ → ℕ → ℕ → ℕ
days_until_month_end year month day = days_in_month year month - day

-- 0.01 and -0.01 are the borders.
abbrev pub trend_of : F64 → CostTrend
trend_of slope =
    if f64_lt 0x3f847ae147ae147b slope
    then rising
    else if f64_lt slope 0xbf847ae147ae147b
    then falling
    else stable

module _ (ar : Arithmetic) where
  abbrev pub sum_f64 : F64 → List F64 → F64
  sum_f64 acc [] = acc
  sum_f64 acc (x ∷ xs) = sum_f64 (ar.add acc x) xs

  -- The sums of the loop over the days, from a day on.
  abbrev pub regression_sums : (x_mean y_mean : F64) → ℕ → List F64 → F64 × F64 → F64 × F64
  regression_sums x_mean y_mean i [] acc = acc
  regression_sums x_mean y_mean i (y ∷ ys) acc =
      let dx = ar.sub (ar.of_nat i) x_mean in
      regression_sums x_mean y_mean (i + 1) ys
        (ar.add acc.0 (ar.mul dx (ar.sub y y_mean)), ar.add acc.1 (ar.mul dx dx))

  -- The slope and the intercept.
  abbrev pub linear_regression : List F64 → F64 × F64
  linear_regression ys =
      let n = ar.of_nat (length ys) in
      let x_mean = ar.div (ar.sub n 0x3ff0000000000000) 0x4000000000000000 in
      let y_mean = ar.div (sum_f64 0 ys) n in
      let sums = regression_sums x_mean y_mean 0 ys (0, 0) in
      let slope = ar.div sums.0 sums.1 in
      if f64_lt n 0x4000000000000000
      then (0, get_or (head? ys) 0)
      else if f64_lt (magnitude sums.1) 0x3cb0000000000000
      then (0, y_mean)
      else (slope, ar.sub y_mean (ar.mul slope x_mean))

  abbrev pub standard_deviation : List F64 → F64
  standard_deviation values =
      let n = ar.of_nat (length values) in
      let mean = ar.div (sum_f64 0 values) n in
      let squares = map (λ v. ar.mul (ar.sub v mean) (ar.sub v mean)) values in
      if ltb (length values) 2
      then 0
      else ar.sqrt (ar.div (sum_f64 0 squares) (ar.sub n 0x3ff0000000000000))

  -- The cost of the days that are left, the first of which has a number; none is negative.
  abbrev pub projected : (slope intercept : F64) → ℕ → ℕ → List F64
  projected slope intercept first zero = []
  projected slope intercept first (suc left) =
      f64_max (ar.add (ar.mul slope (ar.of_nat first)) intercept) 0
      ∷ projected slope intercept (first + 1) left

  abbrev pub residuals : (slope intercept : F64) → ℕ → List F64 → List F64
  residuals slope intercept i [] = []
  residuals slope intercept i (actual ∷ ys) =
      ar.sub actual (ar.add (ar.mul slope (ar.of_nat i)) intercept)
      ∷ residuals slope intercept (i + 1) ys

  unfoldable pub forecast_from : ForecastConfig → ℕ → List F64 → CostForecast
  forecast_from config remaining_days daily_costs =
      let (slope, intercept) = linear_regression daily_costs in
      let current_total = sum_f64 0 daily_costs in
      let estimated =
        ar.add current_total
          (sum_f64 0 (projected slope intercept (length daily_costs) remaining_days)) in
      let std_dev = standard_deviation (residuals slope intercept 0 daily_costs) in
      let margin =
        ar.mul (ar.mul (z_score config.confidence_interval) std_dev)
          (ar.sqrt (ar.of_nat remaining_days)) in
      record {
        estimated_monthly_cost = estimated;
        lower_bound = f64_max (ar.sub estimated margin) current_total;
        upper_bound = ar.add estimated margin;
        confidence_level = config.confidence_interval;
        trend = trend_of slope;
        data_points = length daily_costs;
      }

  unfoldable pub forecast :
      {S : Type 0} → EventStore S → ForecastConfig → (now year month day : ℕ) → S → ForecastResult
  unfolding forecast_from
  forecast store config now year month day s =
      elim (store.daily_costs now config.forecast_horizon_days s) [
        | none ↦ store_failed
        | some daily_costs ↦
            if ltb (length daily_costs) 3
            then insufficient (length daily_costs)
            else forecasted (forecast_from config (days_until_month_end year month day) daily_costs)
      ]
