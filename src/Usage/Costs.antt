-- ===== src/Usage/Costs.antt =====
-- `computeCostTrend`.
use lite_nova.Prelude.{
  ℕ, ◌+◌, ◌*◌, Bool, false, ◌||◌, String, List, [], ◌∷◌, Option, map, length, ltb, if◌then◌else◌,
}
use lite_nova.Sorting.{sort}
use lite_nova.Grouping.{group}
use lite_nova.Usage.{Raw, TimeGranularity, Calendar, TimeBucket, aggregate_by_time}
use lite_nova.Usage.Money.{Rate, round_ratio, cost_cents}
use lite_nova.Usage.Tokens.{reduce}
use lite_nova.Usage.Summary.{add_names, given, has_upstream_cost, when}

-- A sum of fractions.
pub record Fraction : Type 0 where
  pub num : ℕ
  pub den : ℕ

abbrev pub add_fraction : Fraction → Fraction → Fraction
add_fraction a b = record { num = a.num * b.den + b.num * a.den; den = a.den * b.den }

abbrev pub nothing : Fraction
nothing = record { num = 0; den = 1 }

-- The part of the cost of a row that falls on some of its tokens; half of it if it has no tokens.
unfoldable pub cost_part : Rate → (tokens all quota : ℕ) → Fraction
cost_part rate tokens all quota =
    if ltb 0 all
    then record { num = quota * rate.num * tokens; den = rate.den * all }
    else record { num = quota * rate.num; den = rate.den * 2 }

abbrev pub input_part : Rate → Raw → Fraction
input_part rate r = cost_part rate r.prompt_tokens (r.prompt_tokens + r.completion_tokens) r.quota

abbrev pub output_part : Rate → Raw → Fraction
output_part rate r =
    cost_part rate r.completion_tokens (r.prompt_tokens + r.completion_tokens) r.quota

-- `inputCost` or `outputCost` after the loop
unfoldable pub add_parts : (Raw → Fraction) → List Raw → Fraction → Fraction
add_parts part [] s = s
add_parts part (r ∷ rs) s = add_parts part rs (add_fraction s (part r))

-- `Math.round(cost * 100) / 100`, in cents
unfoldable pub fraction_cents : Fraction → ℕ
unfolding round_ratio
fraction_cents f = round_ratio (f.num * 100) f.den

-- `CostDataPoint`, in cents
pub record CostDataPoint : Type 0 where
  pub date : String
  pub total_cost : ℕ
  pub by_model : List (String × ℕ)
  pub input_cost : ℕ
  pub output_cost : ℕ
  pub upstream_cost : Option ℕ

-- `byModel`, after the loop: the quota of each model in the order of the rows. No model has the
-- name of a member that every object has.
unfoldable pub quota_by_model : List Raw → List (String × ℕ)
quota_by_model rs = group (λ r. r.model_name) (λ r. r.quota) (λ r q. q + r.quota) rs []

-- `Math.round(n * 100) / 100` of millionths of a dollar, in cents
abbrev pub micro_cents : ℕ → ℕ
micro_cents n = round_ratio (n * 100) 1_000_000

-- The point of a bucket; `has_upstream` is what `hasUpstreamCost` holds behind its loop.
unfoldable pub cost_point : Rate → (has_upstream : Bool) → TimeBucket → CostDataPoint
unfolding reduce add_parts cost_part fraction_cents quota_by_model cost_cents
cost_point rate has_upstream b = record {
  date = b.date_key;
  total_cost = cost_cents rate (reduce (λ r. r.quota) 0 b.records);
  by_model = map (λ e. (e.0, cost_cents rate e.1)) (quota_by_model b.records);
  input_cost = fraction_cents (add_parts (input_part rate) b.records nothing);
  output_cost = fraction_cents (add_parts (output_part rate) b.records nothing);
  upstream_cost = when has_upstream (micro_cents (reduce (λ r. given r.upstream_cost) 0 b.records));
}

-- `buckets.map(…)`: `hasUpstreamCost` is a variable outside the callback, and once it is set it
-- stays so for the buckets that follow.
unfoldable pub cost_points : Rate → (has_upstream : Bool) → List TimeBucket → List CostDataPoint
unfolding cost_point has_upstream_cost
cost_points rate has_upstream [] = []
cost_points rate has_upstream (b ∷ bs) =
    let now = has_upstream || has_upstream_cost b.records in
    cost_point rate now b ∷ cost_points rate now bs

-- `hasUpstreamCost` behind the last bucket
unfoldable pub upstream_seen : (has_upstream : Bool) → List TimeBucket → Bool
upstream_seen has_upstream [] = has_upstream
upstream_seen has_upstream (b ∷ bs) = upstream_seen (has_upstream || has_upstream_cost b.records) bs

-- `series.length || 1`
abbrev pub bucket_count : {A : Type 0} → List A → ℕ
bucket_count [] = 1
bucket_count (x ∷ xs) = length (x ∷ xs)

pub record CostTrend : Type 0 where
  pub series : List CostDataPoint
  pub total : ℕ
  pub daily_avg : ℕ
  pub projected_monthly : ℕ
  pub models : List String
  pub total_upstream_cost : Option ℕ

-- `computeCostTrend`; `text_greater` is the order of `sort()` without a comparison.
unfoldable pub compute_cost_trend :
    Calendar
    → (text_greater : String → String → Bool) → List Raw
    → TimeGranularity
    → Rate
    → CostTrend
unfolding cost_points reduce round_ratio add_names upstream_seen
compute_cost_trend c text_greater rs g rate =
    let buckets = aggregate_by_time c rs g in
    let series = cost_points rate false buckets in
    let total = reduce (λ d. d.total_cost) 0 series in
    record {
      series = series;
      total = total;
      daily_avg = round_ratio total (bucket_count series);
      projected_monthly = round_ratio (total * 30) (bucket_count series);
      models = sort text_greater (add_names rs []);
      total_upstream_cost =
          when (upstream_seen false buckets)
            (micro_cents (reduce (λ b. reduce (λ r. given r.upstream_cost) 0 b.records) 0 buckets));
    }
