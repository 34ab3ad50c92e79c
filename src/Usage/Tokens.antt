-- ===== src/Usage/Tokens.antt =====
-- `computeTokenTrend`.
use lite_nova.Prelude.{ℕ, ◌+◌, String, List, [], ◌∷◌, map, length, ltb, if◌then◌else◌}
use lite_nova.Usage.{Raw, TimeGranularity, Calendar, TimeBucket, aggregate_by_time}
use lite_nova.Usage.Money.{round_ratio}

pub record TokenDataPoint : Type 0 where
  pub date : String
  pub input_tokens : ℕ
  pub output_tokens : ℕ
  pub total_tokens : ℕ
  pub requests : ℕ

pub record TokenTrend : Type 0 where
  pub series : List TokenDataPoint
  pub total_input : ℕ
  pub total_output : ℕ
  pub total : ℕ
  pub daily_avg : ℕ
  pub peak_date : String
  pub peak_tokens : ℕ

-- `xs.reduce((s, x) => s + f(x), s)`, and the loops `for (const x of xs) s += f(x)`
unfoldable pub reduce : {A : Type 0} → (A → ℕ) → ℕ → List A → ℕ
reduce f s [] = s
reduce f s (x ∷ xs) = reduce f (s + f x) xs

-- The point of a bucket.
unfoldable pub token_point : TimeBucket → TokenDataPoint
unfolding reduce
token_point b =
    let input = reduce (λ r. r.prompt_tokens) 0 b.records in
    let output = reduce (λ r. r.completion_tokens) 0 b.records in
    record {
      date = b.date_key;
      input_tokens = input;
      output_tokens = output;
      total_tokens = input + output;
      requests = reduce (λ r. r.count) 0 b.records;
    }

-- `series.reduce((max, d) => (d.totalTokens > max.totalTokens ? d : max), max)`
unfoldable pub peak_of : TokenDataPoint → List TokenDataPoint → TokenDataPoint
peak_of max [] = max
peak_of max (d ∷ ds) = peak_of (if ltb max.total_tokens d.total_tokens then d else max) ds

abbrev pub no_day : TokenDataPoint
no_day = record { date = ""; input_tokens = 0; output_tokens = 0; total_tokens = 0; requests = 0 }

-- `peakDay`
unfoldable pub peak_day : List TokenDataPoint → TokenDataPoint
unfolding peak_of
peak_day [] = no_day
peak_day (d ∷ ds) = peak_of d (d ∷ ds)

-- `dailyAvg` of a sum
abbrev pub average : ℕ → List TokenDataPoint → ℕ
average n [] = 0
average n (d ∷ ds) = round_ratio n (length (d ∷ ds))

-- The result, put together from the series.
unfoldable pub trend_of : List TokenDataPoint → TokenTrend
unfolding reduce peak_day
trend_of series =
    let input = reduce (λ d. d.input_tokens) 0 series in
    let output = reduce (λ d. d.output_tokens) 0 series in
    record {
      series = series;
      total_input = input;
      total_output = output;
      total = input + output;
      daily_avg = average (input + output) series;
      peak_date = (peak_day series).date;
      peak_tokens = (peak_day series).total_tokens;
    }

-- `computeTokenTrend`
unfoldable pub compute_token_trend : Calendar → List Raw → TimeGranularity → TokenTrend
unfolding token_point trend_of
compute_token_trend c rs g = trend_of (map token_point (aggregate_by_time c rs g))
