-- ===== src/CostRouting/Auctioneer.antt =====
-- The choice of a model by cost, latency and quality, `CostAuctioneer` of
-- router/cost_auctioneer.rs. The clock, from which its random numbers come, is an argument.
pub mod Laws
use Prim.Native.Nat.{bit_xor}
use mathlib.Core.Option
use neu_rust.Prelude.{
  map, ◌-◌, ◌/◌, ◌%◌, ◌∷◌, ◌||◌, if◌then◌else◌, [], none, some, List, Option, Bool, filter, get_or,
  ℕ, head?, is_empty, leb, length, not, get_elem?, min,
}
use neu_rust.Prelude.Keys.{text_eq, nat_eq}
use neu_rust.Prelude.Maps
use neu_rust.CostRouting.Bandit.{update, SlidingWindowUcb, total_requests}
use neu_rust.CostRouting.Bandit
use neu_rust.Prelude.Text.{Str, utf8}
use neu_rust.Prelude.Float.{Arithmetic, F64, f64_lt, is_finite, f64_min, f64_max}
use neu_rust.Contracts.{RequestContext, ModelSpec, UnifiedRequest, UnifiedResponse}
use neu_rust.Prelude.Sort.{sort_by}

pub record RawScore : Type 0 where
  pub model_id : Str
  pub cost : F64
  pub latency_ms : F64
  pub quality : F64

pub record ContextWeights : Type 0 where
  pub cost : F64
  pub latency : F64
  pub quality : F64

-- The fields of `CostRouterConfig` that the auctioneer reads.
pub record CostRouterConfig : Type 0 where
  pub warmup_requests : Option ℕ
  pub epsilon : Option F64
  pub sliding_window_size : Option ℕ
  pub context_weights : Option (List (Str × ContextWeights))

pub record CostAuctioneer : Type 0 where
  pub config : CostRouterConfig
  pub bandit : SlidingWindowUcb
  pub candidates : List RawScore

abbrev pub new_auctioneer : CostRouterConfig → List RawScore → CostAuctioneer
new_auctioneer config candidates = record {
  config = config;
  bandit = Bandit.new (get_or config.sliding_window_size 500);
  candidates = candidates;
}

-- 0.2, 0.6 and 0.2.
abbrev pub default_weights : ContextWeights
default_weights = record {
  cost = 0x3fc999999999999a;
  latency = 0x3fe3333333333333;
  quality = 0x3fc999999999999a;
}

unfoldable pub get_context_weights : CostRouterConfig → RequestContext → ContextWeights
get_context_weights config context =
    let request_type = get_or context.request_type (utf8 "interactive") in
    elim config.context_weights [
      | none ↦ default_weights
      | some weights ↦ get_or (Maps.lookup request_type weights) default_weights
    ]

abbrev pub to_model_spec : Str → ModelSpec
to_model_spec model_id = record { model_name = model_id; provider_id = none }

-- `select_first`; `none` is the error without candidates.
abbrev pub select_first : List RawScore → Option ModelSpec
select_first candidates = Option.map (λ s. to_model_spec s.model_id) (head? candidates)

-- The order in which the scores are sorted: what `partial_cmp` cannot compare is equal.
abbrev pub score_le : Str × F64 → Str × F64 → Bool
score_le a b = not (f64_lt b.1 a.1)

abbrev pub fold_f64 : (F64 → F64 → F64) → F64 → List F64 → F64
fold_f64 f acc [] = acc
fold_f64 f acc (x ∷ xs) = fold_f64 f (f acc x) xs

abbrev pub is_warm : CostAuctioneer → Bool
is_warm a = leb (get_or a.config.warmup_requests 100) (total_requests a.bandit)

abbrev pub record_observation : CostAuctioneer → Str → F64 → CostAuctioneer
record_observation a model_id reward = record a { bandit = update a.bandit model_id reward }

module _ (ar : Arithmetic) where
  -- `rand_f64`, from the nanoseconds of the clock.
  abbrev pub rand_f64 : ℕ → F64
  rand_f64 nanos = ar.div (ar.of_nat (bit_xor nanos (nanos / 0x20000) % 10000)) 0x40c3880000000000

  -- `clamp(0.0, 1.0)`.
  abbrev pub clamp : F64 → F64
  clamp x = if f64_lt x 0 then 0 else if f64_lt 0x3ff0000000000000 x then 0x3ff0000000000000 else x

  -- The neutral value is 0.5; a range below the epsilon of doubles is a tie.
  unfoldable pub safe_normalize : F64 → List F64 → F64
  safe_normalize value all_values =
      let finite_values = filter is_finite all_values in
      let least = fold_f64 f64_min 0x7ff0000000000000 finite_values in
      let range = ar.sub (fold_f64 f64_max 0xfff0000000000000 finite_values) least in
      if not (is_finite value) || (leb (length finite_values) 1 || f64_lt range 0x3cb0000000000000)
      then 0x3fe0000000000000
      else clamp (ar.div (ar.sub value least) range)

  -- 1.5 if less than 0.2 of the budget is left, else 1.
  abbrev pub budget_factor : RequestContext → F64
  budget_factor context =
      if f64_lt context.budget_remaining_ratio 0x3fc999999999999a
      then 0x3ff8000000000000
      else 0x3ff0000000000000

  abbrev pub combined : CostAuctioneer → RequestContext → RawScore → F64
  combined a context s =
      let weights = get_context_weights a.config context in
      let cost_norm = safe_normalize s.cost (map (λ c. c.cost) a.candidates) in
      let lat_norm = safe_normalize s.latency_ms (map (λ c. c.latency_ms) a.candidates) in
      ar.add
        (ar.add (ar.mul (ar.mul cost_norm weights.cost) (budget_factor context))
          (ar.mul lat_norm weights.latency))
        (ar.mul (ar.sub 0x3ff0000000000000 s.quality) weights.quality)

  abbrev pub scores : CostAuctioneer → RequestContext → List (Str × F64)
  scores a context = map (λ s. (s.model_id, combined a context s)) a.candidates

  -- `random_choice`, by a second reading of the clock.
  abbrev pub random_choice : ℕ → List (Str × F64) → Option ModelSpec
  random_choice nanos scored =
      let i = ar.to_nat (ar.mul (rand_f64 nanos) (ar.of_nat (length scored))) in
      Option.map (λ s. to_model_spec s.0) (get_elem? scored (min i (length scored - 1)))

  -- `rand_f64() < epsilon`, with 0.1 by default.
  abbrev pub explores : CostAuctioneer → ℕ → Bool
  explores a nanos = f64_lt (rand_f64 nanos) (get_or a.config.epsilon 0x3fb999999999999a)

  -- By the two readings of the clock.
  unfoldable pub select_best : CostAuctioneer → ℕ → ℕ → UnifiedRequest → Option ModelSpec
  unfolding safe_normalize get_context_weights
  select_best a nanos again r =
      let scored = scores a r.context in
      if is_empty a.candidates
      then none
      else if not (is_warm a)
      then select_first a.candidates
      else if explores a nanos
      then random_choice again scored
      else Option.map (λ s. to_model_spec s.0) (head? (sort_by score_le scored))

  abbrev pub auction_request : CostAuctioneer → ℕ → ℕ → UnifiedRequest → Option UnifiedRequest
  auction_request a nanos again r =
      Option.map (λ selected. record r { model = selected }) (select_best a nanos again r)

  -- The reward is one less the share of five seconds that the answer took.
  abbrev pub auction_response : CostAuctioneer → UnifiedRequest → UnifiedResponse → CostAuctioneer
  auction_response a r response =
      let share = ar.div (ar.of_nat response.latency_ms) 0x40b3880000000000 in
      record_observation a r.model.model_name
        (ar.sub 0x3ff0000000000000 (f64_min share 0x3ff0000000000000))
