-- ===== src/Usage/Summary.antt =====
-- `computeSummary`: the metrics of a period against those of the period before. Costs are in
-- cents, percentages in hundredths, and a rate of change is in tenths of a percent.
use lite_nova.Prelude.{
  ℕ, ◌+◌, ◌*◌, Bool, true, false, ◌||◌, String, List, [], ◌∷◌, Option, none, some, length, ltb,
  ◌==◌, str_eq, if◌then◌else◌,
}
use lite_nova.Prelude.Int.{ℤ, pos, negsuc, pos_part, neg_part}
use lite_nova.Usage.{Raw}
use lite_nova.Usage.Money.{Rate, round_ratio, round_difference, cost_cents}
use lite_nova.Usage.Tokens.{reduce}

pub data Trend : Type 0 where
  up down flat : Trend

pub record StatMetric : Type 0 where
  pub value : ℤ
  pub previous_value : Option ℤ
  pub change_rate : ℤ
  pub trend : Trend

-- `previous > 0`
abbrev pub is_positive : ℤ → Bool
is_positive (pos n) = ltb 0 n
is_positive (negsuc n) = false

-- `((current - previous) / previous) * 100` is over a half, and under minus a half.
abbrev pub trend_of : (current : ℤ) → (previous : ℕ) → Trend
trend_of current previous =
    if ltb (previous + 200 * (neg_part current + previous)) (200 * pos_part current)
    then up
    else (if ltb (previous + 200 * pos_part current) (200 * (neg_part current + previous))
        then down
        else flat)

-- `previous || undefined`
abbrev pub or_none : ℤ → Option ℤ
or_none (pos n) = if n == 0 then none else some (pos n)
or_none (negsuc n) = some (negsuc n)

-- `buildMetric`
unfoldable pub build_metric : (current previous : ℤ) → StatMetric
unfolding round_difference round_ratio
build_metric current previous =
    if is_positive previous
    then record {
      value = current;
      previous_value = or_none previous;
      change_rate =
          round_difference (pos_part current * 1000) ((neg_part current + pos_part previous) * 1000)
            (pos_part previous);
      trend = trend_of current (pos_part previous);
    }
    else record {
      value = current;
      previous_value = or_none previous;
      change_rate = if is_positive current then pos 1000 else pos 0;
      trend = if is_positive current then up else flat;
    }

-- `set.add(name)`
unfoldable pub add_name : String → List String → List String
add_name name [] = name ∷ []
add_name name (n ∷ ns) = if str_eq n name then n ∷ ns else n ∷ add_name name ns

unfoldable pub add_names : List Raw → List String → List String
unfolding add_name
add_names [] names = names
add_names (r ∷ rs) names = add_names rs (add_name r.model_name names)

abbrev pub is_given : Option ℕ → Bool
is_given none = false
is_given (some n) = true

abbrev pub given : Option ℕ → ℕ
given none = 0
given (some n) = n

unfoldable pub has_upstream_cost : List Raw → Bool
has_upstream_cost [] = false
has_upstream_cost (r ∷ rs) = is_given r.upstream_cost || has_upstream_cost rs

-- The sums of a period.
pub record Period : Type 0 where
  pub requests : ℕ
  pub tokens : ℕ
  pub quota : ℕ
  pub use_time : ℕ
  pub errors : ℕ
  pub upstream : ℕ
  pub models : ℕ

-- The loop over a period.
unfoldable pub period_of : List Raw → Period
unfolding reduce add_names
period_of rs = record {
  requests = reduce (λ r. r.count) 0 rs;
  tokens = reduce (λ r. r.token_used) 0 rs;
  quota = reduce (λ r. r.quota) 0 rs;
  use_time = reduce (λ r. r.total_use_time) 0 rs;
  errors = reduce (λ r. r.error_count) 0 rs;
  upstream = reduce (λ r. given r.upstream_cost) 0 rs;
  models = length (add_names rs []);
}

-- `Math.round(avgLatency)`
unfoldable pub avg_latency : Period → ℕ
unfolding round_ratio
avg_latency p = if ltb 0 p.requests then round_ratio p.use_time p.requests else 0

-- `Math.round(successRate * 100) / 100`
unfoldable pub success_rate : Period → ℤ
unfolding round_difference
success_rate p =
    if ltb 0 p.requests
    then round_difference (p.requests * 10000) (p.errors * 10000) p.requests
    else pos 10000

-- `Math.round(totalUpstreamCost * 100) / 100`
unfoldable pub upstream_cents : Period → ℕ
unfolding round_ratio
upstream_cents p = round_ratio (p.upstream * 100) 1_000_000

-- `profitCurrent` or `profitPrev`, rounded
unfoldable pub profit_margin : Rate → Period → ℤ
unfolding round_difference
profit_margin rate p =
    let cost = p.quota * rate.num * 1_000_000 in
    if ltb 0 cost
    then round_difference (cost * 10000) (p.upstream * rate.den * 10000) cost
    else pos 0

pub record DashboardSummary : Type 0 where
  pub total_requests : StatMetric
  pub total_tokens : StatMetric
  pub total_cost : StatMetric
  pub avg_latency : StatMetric
  pub success_rate : StatMetric
  pub active_models : StatMetric
  pub upstream_cost : Option StatMetric
  pub profit_margin : Option StatMetric

abbrev pub metric : (Period → ℤ) → Period → Period → StatMetric
metric f current previous = build_metric (f current) (f previous)

abbrev pub when : {A : Type 0} → Bool → A → Option A
when true a = some a
when false a = none

-- `computeSummary`
unfoldable pub compute_summary : List Raw → List Raw → Rate → DashboardSummary
unfolding period_of
compute_summary rs previous rate =
    let current = period_of rs in
    let before = period_of previous in
    record {
      total_requests = metric (λ p. pos p.requests) current before;
      total_tokens = metric (λ p. pos p.tokens) current before;
      total_cost = metric (λ p. pos (cost_cents rate p.quota)) current before;
      avg_latency = metric (λ p. pos (avg_latency p)) current before;
      success_rate = metric success_rate current before;
      active_models = metric (λ p. pos p.models) current before;
      upstream_cost =
          when (has_upstream_cost rs) (metric (λ p. pos (upstream_cents p)) current before);
      profit_margin = when (has_upstream_cost rs) (metric (profit_margin rate) current before);
    }
