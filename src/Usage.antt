-- ===== src/Usage.antt =====
-- The transformation of raw usage into the data of the usage dashboard
-- (frontend/T-007-usage-dashboard/src/transforms/quota-transform.ts, with the types of
-- src/types/usage.ts): the rows, the keys of time, and the buckets of `aggregateByTime`.
pub mod Buckets
pub mod Weeks
pub mod Money
pub mod Tokens
pub mod TokenLaws
pub mod Models
pub mod Consumers
pub mod ConsumerLaws
pub mod Summary
pub mod SummaryLaws
pub mod Analysis
pub mod AnalysisLaws
pub mod Costs
pub mod CostLaws
pub mod Upstream
pub mod Tests
use Prim.Native.String.{◌++◌}
use lite_nova.Prelude.{
  ℕ, ◌+◌, ◌-◌, ◌*◌, ◌/◌, ◌%◌, Bool, String, List, [], ◌∷◌, Option, map, push, ◌==◌, leb,
  if◌then◌else◌,
}
use lite_nova.Prelude.Int.{ℤ, pos, negsuc}
use lite_nova.Sorting.{sort}
use lite_nova.Grouping.{group}

-- `RawQuotaData`, in so far as the transformation reads it. The cost upstream is in millionths of
-- a dollar.
pub record Raw : Type 0 where
  pub user_id : ℕ
  pub username : String
  pub model_name : String
  pub created_at : ℕ
  pub token_used : ℕ
  pub count : ℕ
  pub quota : ℕ
  pub prompt_tokens : ℕ
  pub completion_tokens : ℕ
  pub channel_id : ℕ
  pub group : String
  pub max_use_time : ℕ
  pub error_count : ℕ
  pub total_use_time : ℕ
  pub upstream_cost : Option ℕ
  pub model_category : Option String

pub data TimeGranularity : Type 0 where
  hourly daily weekly monthly : TimeGranularity

-- What the language says of a day in UTC, which is numbered from 1970-01-01: its year, its month
-- from 1 and its day of the month as texts; `String` of a number; and whether `localeCompare` is
-- positive.
pub record Calendar : Type 0 where
  pub year_text : ℤ → String
  pub month_text : ℤ → String
  pub day_text : ℤ → String
  pub number_text : ℕ → String
  pub locale_greater : String → String → Bool

-- `s.padStart(2, '0')`
unfoldable pub pad_start : String → String
pad_start String.[] = "00"
pad_start (String.◌∷◌ c String.[]) = "0" ++ String.◌∷◌ c String.[]
pad_start (String.◌∷◌ c (String.◌∷◌ d s)) = String.◌∷◌ c (String.◌∷◌ d s)

abbrev pub day_number : ℕ → ℕ
day_number unix_seconds = unix_seconds / 86400

-- `getUTCDay`: 0 is Sunday, and 1970-01-01 was a Thursday.
unfoldable pub utc_day : ℕ → ℕ
utc_day unix_seconds = (day_number unix_seconds + 4) % 7

-- The Monday of the week: `setUTCDate` by `(day === 0 ? -6 : 1) - day` days.
unfoldable pub monday : ℕ → ℤ
unfolding utc_day
monday unix_seconds =
    let back = if utc_day unix_seconds == 0 then 6 else utc_day unix_seconds - 1 in
    if leb back (day_number unix_seconds)
    then pos (day_number unix_seconds - back)
    else negsuc (back - day_number unix_seconds - 1)

unfoldable pub month_key : Calendar → ℤ → String
unfolding pad_start
month_key c d = c.year_text d ++ ("-" ++ pad_start (c.month_text d))

unfoldable pub day_key : Calendar → ℤ → String
unfolding month_key pad_start
day_key c d = month_key c d ++ ("-" ++ pad_start (c.day_text d))

-- `timestampToDateKey`
unfoldable pub timestamp_to_date_key : Calendar → ℕ → TimeGranularity → String
unfolding day_key month_key pad_start
timestamp_to_date_key c t hourly =
    day_key c (pos (day_number t))
    ++ ("T" ++ (pad_start (c.number_text (t % 86400 / 3600)) ++ ":00"))
timestamp_to_date_key c t daily = day_key c (pos (day_number t))
timestamp_to_date_key c t weekly = day_key c (monday t)
timestamp_to_date_key c t monthly = month_key c (pos (day_number t))

pub record TimeBucket : Type 0 where
  pub date_key : String
  pub records : List Raw

abbrev pub bucket_of : String × List Raw → TimeBucket
bucket_of e = record { date_key = e.0; records = e.1 }

abbrev pub raw_key : Calendar → TimeGranularity → Raw → String
raw_key c g r = timestamp_to_date_key c r.created_at g

-- `bucketMap`, after the loop
unfoldable pub bucket_map : Calendar → TimeGranularity → List Raw → List (String × List Raw)
bucket_map c g rs = group (raw_key c g) (λ r. r ∷ []) (λ r records. push records r) rs []

-- `aggregateByTime`
unfoldable pub aggregate_by_time : Calendar → List Raw → TimeGranularity → List TimeBucket
unfolding bucket_map
aggregate_by_time c rs g =
    map bucket_of (sort (λ a b. c.locale_greater a.0 b.0) (bucket_map c g rs))
