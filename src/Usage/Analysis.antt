-- ===== src/Usage/Analysis.antt =====
-- `computeModelAnalysis`.
use lite_nova.Prelude.{
  ℕ, ◌+◌, ◌*◌, String, List, [], ◌∷◌, Option, none, some, map, ltb, ◌==◌, str_eq, keep,
  if◌then◌else◌,
}
use Prim.Native.Nat.{max}
use lite_nova.Prelude.Int.{ℤ, pos}
use lite_nova.Sorting.{sort}
use lite_nova.Grouping.{group}
use lite_nova.Usage.{Raw, TimeGranularity, Calendar, TimeBucket, aggregate_by_time}
use lite_nova.Usage.Money.{Rate, round_ratio, round_difference, cost_cents}
use lite_nova.Usage.Tokens.{reduce}
use lite_nova.Usage.Models.{infer_provider, infer_model_category, text_or}
use lite_nova.Usage.Summary.{add_name}

-- A value of `modelMap`. The sets are lists without repetition, in the order of insertion.
pub record Totals : Type 0 where
  pub requests : ℕ
  pub input_tokens : ℕ
  pub output_tokens : ℕ
  pub quota : ℕ
  pub total_use_time : ℕ
  pub max_use_time : ℕ
  pub error_count : ℕ
  pub total_count : ℕ
  pub channel_ids : List ℕ
  pub groups : List String
  pub category : Option String

unfoldable pub add_id : ℕ → List ℕ → List ℕ
add_id i [] = i ∷ []
add_id i (j ∷ js) = if j == i then j ∷ js else j ∷ add_id i js

abbrev pub first_totals : Raw → Totals
first_totals r = record {
  requests = r.count;
  input_tokens = r.prompt_tokens;
  output_tokens = r.completion_tokens;
  quota = r.quota;
  total_use_time = r.total_use_time;
  max_use_time = r.max_use_time;
  error_count = r.error_count;
  total_count = r.count;
  channel_ids = r.channel_id ∷ [];
  groups = r.group ∷ [];
  category = r.model_category;
}

-- `if (r.model_category) existing.category = r.model_category`
abbrev pub later_category : Option String → Option String → Option String
later_category none old = old
later_category (some category) old = if str_eq category "" then old else some category

abbrev pub more_totals : Raw → Totals → Totals
more_totals r v = record {
  requests = v.requests + r.count;
  input_tokens = v.input_tokens + r.prompt_tokens;
  output_tokens = v.output_tokens + r.completion_tokens;
  quota = v.quota + r.quota;
  total_use_time = v.total_use_time + r.total_use_time;
  max_use_time = max v.max_use_time r.max_use_time;
  error_count = v.error_count + r.error_count;
  total_count = v.total_count + r.count;
  channel_ids = add_id r.channel_id v.channel_ids;
  groups = add_name r.group v.groups;
  category = later_category r.model_category v.category;
}

-- `modelMap`, after the loop
unfoldable pub model_map : List Raw → List (String × Totals)
model_map rs = group (λ r. r.model_name) first_totals more_totals rs []

-- `ModelStats`: the cost in cents, the share and the success rate in hundredths of a percent.
pub record ModelStats : Type 0 where
  pub model_id : String
  pub provider : String
  pub requests : ℕ
  pub input_tokens : ℕ
  pub output_tokens : ℕ
  pub total_tokens : ℕ
  pub cost : ℕ
  pub cost_share : ℕ
  pub avg_latency : ℕ
  pub p99_latency : ℕ
  pub success_rate : ℤ
  pub avg_tokens_per_request : ℕ
  pub category : String
  pub channel_ids : List ℕ
  pub groups : List String

-- The entry of a model; `total` is the quota of all models.
unfoldable pub model_stats :
    (lower : String → String) → Rate → (total : ℕ) → String × Totals → ModelStats
unfolding round_ratio round_difference cost_cents infer_provider infer_model_category
model_stats lower rate total e =
    let v = e.1 in
    record {
      model_id = e.0;
      provider = infer_provider lower e.0;
      requests = v.requests;
      input_tokens = v.input_tokens;
      output_tokens = v.output_tokens;
      total_tokens = v.input_tokens + v.output_tokens;
      cost = cost_cents rate v.quota;
      cost_share =
          if ltb 0 (total * rate.num)
          then round_ratio (v.quota * rate.num * 10000) (total * rate.num)
          else 0;
      avg_latency = if ltb 0 v.total_count then round_ratio v.total_use_time v.total_count else 0;
      p99_latency = v.max_use_time;
      success_rate =
          if ltb 0 v.requests
          then round_difference (v.requests * 10000) (v.error_count * 10000) v.requests
          else pos 10000;
      avg_tokens_per_request =
          if ltb 0 v.requests then round_ratio (v.input_tokens + v.output_tokens) v.requests else 0;
      category = text_or v.category (infer_model_category lower e.0);
      channel_ids = v.channel_ids;
      groups = v.groups;
    }

-- `models`: the costliest first
unfoldable pub model_list : (lower : String → String) → List Raw → Rate → List ModelStats
unfolding model_map model_stats reduce
model_list lower rs rate =
    let entries = model_map rs in
    sort (λ a b. ltb a.cost b.cost)
      (map (model_stats lower rate (reduce (λ e. e.1.quota) 0 entries)) entries)

pub record TimeSeriesPoint : Type 0 where
  pub timestamp : String
  pub value : ℕ

pub record LabeledTimeSeries : Type 0 where
  pub label : String
  pub points : List TimeSeriesPoint

-- The cost of a model in a bucket, in cents.
unfoldable pub model_point : Rate → String → TimeBucket → TimeSeriesPoint
unfolding reduce cost_cents
model_point rate name b = record {
  timestamp = b.date_key;
  value =
      cost_cents rate (reduce (λ r. r.quota) 0 (keep (λ r. str_eq r.model_name name) b.records));
}

pub record ModelAnalysis : Type 0 where
  pub models : List ModelStats
  pub trends : List LabeledTimeSeries

-- `computeModelAnalysis`
unfoldable pub compute_model_analysis :
    Calendar → (lower : String → String) → List Raw → TimeGranularity → Rate → ModelAnalysis
unfolding model_list model_point
compute_model_analysis c lower rs g rate =
    let models = model_list lower rs rate in
    record {
      models = models;
      trends =
          map
            (λ m. record {
              label = m.model_id;
              points = map (model_point rate m.model_id) (aggregate_by_time c rs g);
            })
            models;
    }
