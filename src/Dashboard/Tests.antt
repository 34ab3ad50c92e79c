-- ===== src/Dashboard/Tests.antt =====
-- The theorems about the dashboard on the usage of two days.
use lite_nova.Prelude.{All, ◌≡◌, true, false, String, List, [], ◌∷◌, keep, ◌==◌, if◌then◌else◌}
use lite_nova.Dashboard.{
  Usage, Calendar, Dashboard, no_usage, get_filtered_data, dates, process_time_series_data,
}
use lite_nova.Sums.{sum_of}
use lite_nova.Dashboard.Bars.{process_model_bar_data}
use lite_nova.Dashboard.BarLaws.{get_value, last_tokens, process_model_bar_data-last_tokens}
use lite_nova.Dashboard.Laws.{has_date, process_time_series_data-sum}

abbrev calendar : Calendar
calendar = record {
  iso_date = λ n. if n == 9 then "2026-01-09" else "2026-01-08";
  is_later = false;
  today = 9;
  text_at_least = λ a b. true;
  locale_greater = λ a b. false;
}

abbrev use_of : String → String → Usage
use_of day model = record {
  day = day;
  model_name = model;
  request_count = 2;
  quota = 1000;
  prompt_tokens = 30;
  completion_tokens = 40;
}

abbrev usages : List Usage
usages = use_of "2026-01-08" "gpt-4" ∷ use_of "2026-01-09" "gpt-4" ∷ use_of "2025-12-01" "qwen" ∷ []

abbrev page : Dashboard
page = record { usages = usages; range_days = 2; summary = no_usage }

process_time_series_data-sum_example :
    sum_of (λ d. d.requests) (process_time_series_data calendar page)
    ≡ sum_of
        (λ i. i.request_count)
        (keep (λ i. has_date i.day (dates calendar page)) (get_filtered_data calendar page))
process_time_series_data-sum_example = process_time_series_data-sum calendar page

process_model_bar_data-last_tokens_example :
    All
      (λ b.
        (name : String)
        → get_value name b.values ≡ last_tokens b.date name (get_filtered_data calendar page) 0)
      (process_model_bar_data calendar page).bar_data
process_model_bar_data-last_tokens_example = process_model_bar_data-last_tokens calendar page
