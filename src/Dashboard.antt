-- ===== src/Dashboard.antt =====
-- The dashboard of a user (web-src/web/src/pages/Dashboard/index.js): its summary, and the data of
-- its charts. A quota is kept in units, of which the page shows the 500000th part. The keys of the
-- objects that the code builds are the days and models of the data, in the order of insertion;
-- a day is numbered from a day that no range reaches back to.
pub mod Laws
pub mod Bars
pub mod BarLaws
pub mod Tests
use lite_nova.Prelude.{ℕ, zero, suc, ◌+◌, ◌-◌, Bool, true, false, String, List, [], ◌∷◌}
use lite_nova.Prelude.{str_eq, if◌then◌else◌, keep}
use lite_nova.Effects.{Reply, rejected, resolved}
use lite_nova.Sorting.{sort}

-- A row of the server: what a model was used for on a day.
pub record Usage : Type 0 where
  pub day : String
  pub model_name : String
  pub request_count : ℕ
  pub quota : ℕ
  pub prompt_tokens : ℕ
  pub completion_tokens : ℕ

pub record Summary : Type 0 where
  pub today_requests : ℕ
  pub today_quota : ℕ
  pub today_tokens : ℕ
  pub total_requests : ℕ
  pub total_quota : ℕ
  pub total_tokens : ℕ

-- What the page calls of the language: the ISO text of a day, by its number, the number of today,
-- whether the clock moves on by a millisecond between the two `new Date()` of a chart, `>=` on
-- texts, and whether `localeCompare` is positive. The hour of the day is the same on every day.
pub record Calendar : Type 0 where
  pub iso_date : ℕ → String
  pub today : ℕ
  pub is_later : Bool
  pub text_at_least : String → String → Bool
  pub locale_greater : String → String → Bool

pub record Dashboard : Type 0 where
  pub usages : List Usage
  pub range_days : ℕ
  pub summary : Summary

-- `items.reduce((s, i) => s + f(i), s)`
unfoldable pub reduce : {A : Type 0} → (A → ℕ) → ℕ → List A → ℕ
reduce f s [] = s
reduce f s (x ∷ xs) = reduce f (s + f x) xs

abbrev pub tokens : Usage → ℕ
tokens i = i.prompt_tokens + i.completion_tokens

abbrev pub no_usage : Summary
no_usage = record {
  today_requests = 0;
  today_quota = 0;
  today_tokens = 0;
  total_requests = 0;
  total_quota = 0;
  total_tokens = 0;
}

-- `calculateSummary`
unfoldable pub calculate_summary : Calendar → List Usage → Summary
calculate_summary c [] = no_usage
calculate_summary c (x ∷ xs) =
    let usages = x ∷ xs in
    let today = keep (λ i. str_eq i.day (c.iso_date c.today)) usages in
    record {
      today_requests = reduce (λ i. i.request_count) 0 today;
      today_quota = reduce (λ i. i.quota) 0 today;
      today_tokens = reduce tokens 0 today;
      total_requests = reduce (λ i. i.request_count) 0 usages;
      total_quota = reduce (λ i. i.quota) 0 usages;
      total_tokens = reduce tokens 0 usages;
    }

-- `fetchDashboardData`; a request that fails shows no usage, a refusal changes nothing.
unfoldable pub fetch_dashboard_data : Calendar → Reply (List Usage) → Dashboard → Dashboard
unfolding calculate_summary
fetch_dashboard_data c (rejected e) s = record s { usages = []; summary = calculate_summary c [] }
fetch_dashboard_data c (resolved a) s =
    if a.success
    then record s { usages = a.payload; summary = calculate_summary c a.payload }
    else s

-- `getFilteredData`
unfoldable pub get_filtered_data : Calendar → Dashboard → List Usage
get_filtered_data c s =
    keep (λ i. c.text_at_least i.day (c.iso_date (c.today - s.range_days))) s.usages

-- The days of a loop: `count` of them, the first `from`.
abbrev pub dates_from : Calendar → ℕ → ℕ → List String
dates_from c from zero = []
dates_from c from (suc count) = c.iso_date from ∷ dates_from c (suc from) count

-- The days of the loop from `minDate` to `maxDate`. The instant of `minDate` is taken last, and
-- where the clock has moved on, today lies behind `maxDate`.
abbrev pub dates : Calendar → Dashboard → List String
dates c s =
    dates_from c (c.today - (s.range_days - 1))
      (if c.is_later then s.range_days - 1 else s.range_days)

-- A value of `dailyData`.
pub record Daily : Type 0 where
  pub date : String
  pub requests : ℕ
  pub quota : ℕ
  pub prompt_tokens : ℕ
  pub completion_tokens : ℕ
  pub tokens : ℕ

abbrev pub empty_day : String → Daily
empty_day date = record {
  date = date;
  requests = 0;
  quota = 0;
  prompt_tokens = 0;
  completion_tokens = 0;
  tokens = 0;
}

-- `dailyData[dateStr] = { … }`
unfoldable pub put_day : String → List Daily → List Daily
put_day date [] = empty_day date ∷ []
put_day date (d ∷ ds) = if str_eq d.date date then empty_day date ∷ ds else d ∷ put_day date ds

unfoldable pub put_days : List String → List Daily → List Daily
put_days [] days = days
put_days (date ∷ rest) days = put_days rest (put_day date days)

abbrev pub add_usage : Usage → Daily → Daily
add_usage i d = record d {
  requests = d.requests + i.request_count;
  quota = d.quota + i.quota;
  prompt_tokens = d.prompt_tokens + i.prompt_tokens;
  completion_tokens = d.completion_tokens + i.completion_tokens;
  tokens = d.tokens + tokens i;
}

-- `if (dailyData[item.Day]) { dailyData[item.Day].requests += …; … }`
unfoldable pub count_usage : Usage → List Daily → List Daily
count_usage i [] = []
count_usage i (d ∷ ds) = if str_eq d.date i.day then add_usage i d ∷ ds else d ∷ count_usage i ds

unfoldable pub count_usages : List Usage → List Daily → List Daily
count_usages [] days = days
count_usages (i ∷ rest) days = count_usages rest (count_usage i days)

-- `processTimeSeriesData`
unfoldable pub process_time_series_data : Calendar → Dashboard → List Daily
process_time_series_data c s =
    sort (λ a b. c.locale_greater a.date b.date)
      (count_usages (get_filtered_data c s) (put_days (dates c s) []))

-- An entry of `modelMap`.
pub record Slice : Type 0 where
  pub name : String
  pub value : ℕ

-- `if (!modelMap[name]) modelMap[name] = 0; modelMap[name] += item.RequestCount;`
unfoldable pub count_model : Usage → List Slice → List Slice
count_model i [] = record { name = i.model_name; value = 0 + i.request_count } ∷ []
count_model i (m ∷ ms) =
    if str_eq m.name i.model_name
    then record m { value = m.value + i.request_count } ∷ ms
    else m ∷ count_model i ms

unfoldable pub count_models : List Usage → List Slice → List Slice
count_models [] slices = slices
count_models (i ∷ rest) slices = count_models rest (count_model i slices)

-- `processModelPieData`
unfoldable pub process_model_pie_data : Calendar → Dashboard → List Slice
process_model_pie_data c s = count_models (get_filtered_data c s) []
