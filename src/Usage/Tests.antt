-- ===== src/Usage/Tests.antt =====
-- The theorems about the transformation on three rows of three days.
use lite_nova.Prelude.{
  ℕ, ◌+◌, ◌≡◌, ◌≢◌, ◌≤◌, refl, false, String, List, [], ◌∷◌, none, some, arith, map, All, length,
  get_elem?, ltb, ◌==◌, Option, str_eq, if◌then◌else◌,
}
use lite_nova.Prelude.Int.{ℤ, pos, negsuc, pos_part, neg_part, ◌≤ℤ◌}
use lite_nova.Sums.{sum_of}
use lite_nova.Sorting.Laws.{IsOrder, IsSorted}
use lite_nova.Grouping.Laws.{IsApart}
use lite_nova.Usage.{
  Raw, Calendar, daily, weekly, monday, day_key, timestamp_to_date_key, TimeBucket,
  aggregate_by_time,
}
use lite_nova.Usage.Buckets
use lite_nova.Usage.Buckets.{
  aggregate_by_time-rows, aggregate_by_time-sum, aggregate_by_time-IsSorted,
}
use lite_nova.Usage.Weeks.{timestamp_to_date_key-weekly}
use lite_nova.Usage.Money.{default_quota_to_usd_rate, cost_cents, round_ratio}
use lite_nova.Usage.Tokens.{compute_token_trend}
use lite_nova.Usage.TokenLaws.{compute_token_trend-sum}
use lite_nova.Usage.Consumers.{user, by_cost, desc, compute_top_consumers}
use lite_nova.Usage.ConsumerLaws.{compute_top_consumers-rows}
use lite_nova.Usage.ConsumerLaws
use lite_nova.Usage.Summary.{compute_summary}
use lite_nova.Usage.SummaryLaws.{compute_summary-sum}
use lite_nova.Usage.Analysis.{model_list}
use lite_nova.Usage.AnalysisLaws
use lite_nova.Usage.AnalysisLaws.{model_list-rows, compute_model_analysis-IsSorted, longest}
use lite_nova.Usage.Costs.{CostDataPoint, compute_cost_trend, cost_points}
use lite_nova.Usage.CostLaws.{compute_cost_trend-cents}
use lite_nova.Usage.Upstream.{cost_points-upstream}

abbrev day_text : ℤ → String
day_text (pos n) = if n == 0 then "1" else (if n == 4 then "5" else "2")
day_text (negsuc n) = "29"

abbrev rank : String → ℕ
rank key = if str_eq key "1970-01-02" then 1 else (if str_eq key "1970-01-05" then 2 else 0)

abbrev calendar : Calendar
calendar = record {
  year_text = λ d. "1970";
  month_text = λ d. "1";
  day_text = day_text;
  number_text = λ n. "0";
  locale_greater = λ a b. ltb (rank b) (rank a);
}

locale_greater-IsOrder : IsOrder calendar.locale_greater
locale_greater-IsOrder = record { asym = λ a b h. ground arith; trans = λ a b c h k. ground arith }

abbrev row : (model user_name : String) (created_at : ℕ) (upstream_cost : Option ℕ) → Raw
row model user_name created_at upstream_cost = record {
  user_id = 7;
  username = user_name;
  model_name = model;
  created_at = created_at;
  token_used = 40;
  count = 3;
  quota = 1_250_000;
  prompt_tokens = 30;
  completion_tokens = 10;
  channel_id = 2;
  group = "default";
  max_use_time = 9;
  error_count = 1;
  total_use_time = 12;
  upstream_cost = upstream_cost;
  model_category = none;
}

-- A Tuesday, a Friday and a Sunday of January 1970.
abbrev rows : List Raw
rows =
    row "gpt-4" "ann" 432_000 none
    ∷ row "qwen" "bob" 90_000 (some 20_000)
    ∷ row "gpt-4" "ann" 259_200 none
    ∷ []

abbrev numbers : ℕ → String
numbers n = "7"

aggregate_by_time-rows_example :
    All
      (λ b. (b.records ≡ Buckets.rows_of calendar daily b.date_key rows) × (b.records ≢ []))
      (aggregate_by_time calendar rows daily)
aggregate_by_time-rows_example = aggregate_by_time-rows calendar daily rows

aggregate_by_time-IsSorted_example :
    IsApart (λ b. b.date_key) (aggregate_by_time calendar rows daily)
    × IsSorted calendar.locale_greater
        (map (λ b. b.date_key) (aggregate_by_time calendar rows daily))
aggregate_by_time-IsSorted_example =
    aggregate_by_time-IsSorted calendar daily rows locale_greater-IsOrder

timestamp_to_date_key-weekly_example :
    (timestamp_to_date_key calendar 90_000 weekly ≡ timestamp_to_date_key calendar 259_200 weekly)
    × (timestamp_to_date_key calendar 90_000 weekly ≡ day_key calendar (monday 90_000))
    × (pos_part (monday 90_000) ≤ 1 + neg_part (monday 90_000))
    × (1 + neg_part (monday 90_000) ≤ pos_part (monday 90_000) + 6)
timestamp_to_date_key-weekly_example = timestamp_to_date_key-weekly calendar 90_000 259_200 refl

compute_token_trend-sum_example :
    ((compute_token_trend calendar rows daily).total_input ≡ 90)
    × ((compute_token_trend calendar rows daily).total_output ≡ 30)
    × ((compute_token_trend calendar rows daily).total ≡ 120)
    × (sum_of (λ d. d.input_tokens) (compute_token_trend calendar rows daily).series
        ≡ (compute_token_trend calendar rows daily).total_input)
    × (sum_of (λ d. d.output_tokens) (compute_token_trend calendar rows daily).series
        ≡ (compute_token_trend calendar rows daily).total_output)
    × (sum_of (λ d. d.total_tokens) (compute_token_trend calendar rows daily).series
        ≡ (compute_token_trend calendar rows daily).total)
    × (sum_of (λ d. d.requests) (compute_token_trend calendar rows daily).series ≡ 9)
compute_token_trend-sum_example = compute_token_trend-sum calendar rows daily

compute_top_consumers-rows_example :
    All
      (λ x.
        (x.requests ≡ sum_of (λ r. r.count) (ConsumerLaws.rows_of numbers user x.id rows))
        × (x.tokens ≡ sum_of (λ r. r.token_used) (ConsumerLaws.rows_of numbers user x.id rows))
        × (x.cost
            ≡ cost_cents default_quota_to_usd_rate
                (sum_of (λ r. r.quota) (ConsumerLaws.rows_of numbers user x.id rows))))
      (compute_top_consumers numbers rows user by_cost desc 1 default_quota_to_usd_rate).consumers
    × (length
          (compute_top_consumers numbers rows user by_cost desc 1
            default_quota_to_usd_rate).consumers
        ≤ 1)
compute_top_consumers-rows_example =
    compute_top_consumers-rows numbers user rows by_cost desc 1 default_quota_to_usd_rate

compute_cost_trend-cents_example :
    All
      (λ d.
        (d.input_cost + d.output_cost ≤ d.total_cost + 1)
        × (d.total_cost ≤ d.input_cost + d.output_cost + 1))
      (compute_cost_trend calendar (λ a b. false) rows daily default_quota_to_usd_rate).series
compute_cost_trend-cents_example =
    compute_cost_trend-cents default_quota_to_usd_rate (omega arith) calendar (λ a b. false) rows
      daily

abbrev friday : TimeBucket
friday = record { date_key = "1970-01-02"; records = row "qwen" "bob" 90_000 (some 20_000) ∷ [] }

abbrev sunday : TimeBucket
sunday = record { date_key = "1970-01-04"; records = row "gpt-4" "ann" 259_200 none ∷ [] }

cost_points-upstream_example :
    (d : CostDataPoint) × (get_elem?
        (cost_points default_quota_to_usd_rate false (friday ∷ sunday ∷ []))
        1
      ≡ some d)
    × (d.date ≡ "1970-01-04")
    × (d.upstream_cost ≡ some 0)
unfolding round_ratio
cost_points-upstream_example =
    cost_points-upstream default_quota_to_usd_rate (friday ∷ []) sunday []

compute_summary-sum_example :
    let s = compute_summary rows [] default_quota_to_usd_rate in
    (s.total_requests.value ≡ pos 9)
    × (s.total_tokens.value ≡ pos 120)
    × (s.total_cost.value ≡ pos 750)
    × (pos 0 ≤ℤ s.success_rate.value)
    × (s.success_rate.value ≤ℤ pos 10000)
unfolding cost_cents round_ratio
compute_summary-sum_example =
    compute_summary-sum rows [] default_quota_to_usd_rate
      (omega arith, (omega arith, (omega arith, tt)))

model_list-rows_example :
    All
      (λ m.
        (m.requests ≡ sum_of (λ r. r.count) (AnalysisLaws.rows_of m.model_id rows))
        × (m.input_tokens ≡ sum_of (λ r. r.prompt_tokens) (AnalysisLaws.rows_of m.model_id rows))
        × (m.output_tokens
            ≡ sum_of (λ r. r.completion_tokens) (AnalysisLaws.rows_of m.model_id rows))
        × (m.cost
            ≡ cost_cents default_quota_to_usd_rate
                (sum_of (λ r. r.quota) (AnalysisLaws.rows_of m.model_id rows)))
        × (m.p99_latency ≡ longest (AnalysisLaws.rows_of m.model_id rows)))
      (model_list (λ s. s) rows default_quota_to_usd_rate)
    × IsApart (λ m. m.model_id) (model_list (λ s. s) rows default_quota_to_usd_rate)
model_list-rows_example = model_list-rows (λ s. s) rows default_quota_to_usd_rate
