-- ===== src/Dashboard/Laws.antt =====
-- The charts of the dashboard account for the data that they show.
use lite_nova.Prelude.{
  ℕ, ◌+◌, ◌≡◌, ◌≤◌, refl, ap, ◌∙◌, Bool, false, String, List, [], ◌∷◌, arith, keep, ◌||◌, str_eq,
  eq_iff, if◌then◌else◌, Bool-cases, inl, inr,
}
use lite_nova.Sums.{sum_of, sum_of-sort, sum_of-keep, sum_of-cong}
use lite_nova.Dashboard.{
  Usage, Calendar, Dashboard, reduce, tokens, calculate_summary, get_filtered_data, dates, Daily,
  put_day, put_days, count_usage, count_usages, process_time_series_data, Slice, count_model,
  count_models, process_model_pie_data,
}

module _ {A : Type 0} (f : A → ℕ) where
  reduce-eq-sum_of : (s : ℕ) (xs : List A) → reduce f s xs ≡ s + sum_of f xs
  unfolding reduce
  reduce-eq-sum_of s [] = omega arith
  reduce-eq-sum_of s (x ∷ xs) = omega (arith, reduce-eq-sum_of (s + f x) xs)

  reduce-keep : (p : A → Bool) (xs : List A) → reduce f 0 (keep p xs) ≤ reduce f 0 xs
  reduce-keep p xs =
      omega (arith, reduce-eq-sum_of 0 (keep p xs), reduce-eq-sum_of 0 xs, sum_of-keep f p xs)

-- What the summary shows for today is at most what it shows in total, and the totals are the sums
-- over the data.
pub calculate_summary-le :
    (c : Calendar) (usages : List Usage)
    → ((calculate_summary c usages).today_requests ≤ (calculate_summary c usages).total_requests)
      × ((calculate_summary c usages).today_quota ≤ (calculate_summary c usages).total_quota)
      × ((calculate_summary c usages).today_tokens ≤ (calculate_summary c usages).total_tokens)
      × ((calculate_summary c usages).total_requests ≡ sum_of (λ i. i.request_count) usages)
      × ((calculate_summary c usages).total_quota ≡ sum_of (λ i. i.quota) usages)
      × ((calculate_summary c usages).total_tokens ≡ sum_of tokens usages)
unfolding calculate_summary
calculate_summary-le c [] = (omega arith, omega arith, omega arith, refl, refl, refl)
calculate_summary-le c (x ∷ xs) =
    let today : Usage → Bool = λ i. str_eq i.day (c.iso_date c.today) in
    (
      reduce-keep (λ i. i.request_count) today (x ∷ xs),
      reduce-keep (λ i. i.quota) today (x ∷ xs),
      reduce-keep tokens today (x ∷ xs),
      omega (arith, reduce-eq-sum_of (λ i. i.request_count) 0 (x ∷ xs)),
      omega (arith, reduce-eq-sum_of (λ i. i.quota) 0 (x ∷ xs)),
      omega (arith, reduce-eq-sum_of tokens 0 (x ∷ xs)),
    )

count_model-sum :
    (i : Usage) (slices : List Slice)
    → sum_of (λ m. m.value) (count_model i slices) ≡ sum_of (λ m. m.value) slices + i.request_count
unfolding count_model
count_model-sum i [] = omega arith
count_model-sum i (m ∷ ms) = elim (Bool-cases (str_eq m.name i.model_name)) [
  | inl e ↦ rw e (omega arith)
  | inr e ↦ rw e (omega (arith, count_model-sum i ms))
]

count_models-sum :
    (usages : List Usage) (slices : List Slice)
    → sum_of (λ m. m.value) (count_models usages slices)
      ≡ sum_of (λ m. m.value) slices + sum_of (λ i. i.request_count) usages
unfolding count_models
count_models-sum [] slices = omega arith
count_models-sum (i ∷ rest) slices =
    omega (arith, count_models-sum rest (count_model i slices), count_model-sum i slices)

-- The slices of the pie add up to the requests of the days that were chosen: no request is lost
-- and none is counted twice.
pub process_model_pie_data-sum :
    (c : Calendar) (s : Dashboard)
    → sum_of (λ m. m.value) (process_model_pie_data c s)
      ≡ sum_of (λ i. i.request_count) (get_filtered_data c s)
unfolding process_model_pie_data
process_model_pie_data-sum c s = omega (arith, count_models-sum (get_filtered_data c s) [])

-- Whether a day has its place in the series.
abbrev pub has_day : String → List Daily → Bool
has_day date [] = false
has_day date (d ∷ ds) = str_eq d.date date || has_day date ds

count_usage-has_day :
    (i : Usage) (date : String) (days : List Daily)
    → has_day date (count_usage i days) ≡ has_day date days
unfolding count_usage
count_usage-has_day i date [] = refl
count_usage-has_day i date (d ∷ ds) = elim (Bool-cases (str_eq d.date i.day)) [
  | inl e ↦ rw e refl
  | inr e ↦ rw e (ap (str_eq d.date date ||◌) (count_usage-has_day i date ds))
]

-- The requests of a usage, where its day is in the series.
abbrev counted : List Daily → Usage → ℕ
counted days i = if has_day i.day days then i.request_count else 0

count_usage-sum :
    (i : Usage) (days : List Daily)
    → sum_of (λ d. d.requests) (count_usage i days) ≡ sum_of (λ d. d.requests) days + counted days i
unfolding count_usage
count_usage-sum i [] = omega arith
count_usage-sum i (d ∷ ds) = elim (Bool-cases (str_eq d.date i.day)) [
  | inl e ↦ rw e (omega arith)
  | inr e ↦ rw e (omega (arith, count_usage-sum i ds))
]

count_usages-sum :
    (usages : List Usage) (days : List Daily)
    → sum_of (λ d. d.requests) (count_usages usages days)
      ≡ sum_of (λ d. d.requests) days + sum_of (counted days) usages
unfolding count_usages
count_usages-sum [] days = omega arith
count_usages-sum (i ∷ rest) days =
    let same : sum_of (counted (count_usage i days)) rest ≡ sum_of (counted days) rest =
      sum_of-cong (counted (count_usage i days)) (counted days) rest
        (λ j. ap (λ b. if b then j.request_count else 0) (count_usage-has_day i j.day days)) in
    omega (arith, count_usages-sum rest (count_usage i days), count_usage-sum i days, same)

-- Whether a day is one of the days of the loop.
abbrev pub has_date : String → List String → Bool
has_date date [] = false
has_date date (q ∷ qs) = str_eq q date || has_date date qs

put_day-has_day :
    (date q : String) (days : List Daily)
    → has_day q (put_day date days) ≡ (str_eq date q || has_day q days)
unfolding put_day
put_day-has_day date q [] = refl
put_day-has_day date q (d ∷ ds) = elim (Bool-cases (str_eq d.date date)) [
  | inl e ↦ rw (e, (eq_iff d.date date).0 e) (ground arith)
  | inr e ↦ rw (e, put_day-has_day date q ds) (ground arith)
]

put_days-has_day :
    (dates : List String) (q : String) (days : List Daily)
    → has_day q (put_days dates days) ≡ (has_date q dates || has_day q days)
unfolding put_days
put_days-has_day [] q days = refl
put_days-has_day (date ∷ rest) q days =
    ground (arith, put_days-has_day rest q (put_day date days), put_day-has_day date q days)

put_day-sum :
    (date : String) (days : List Daily)
    → sum_of (λ d. d.requests) (put_day date days) ≤ sum_of (λ d. d.requests) days
unfolding put_day
put_day-sum date [] = omega arith
put_day-sum date (d ∷ ds) = elim (Bool-cases (str_eq d.date date)) [
  | inl e ↦ rw e (omega arith)
  | inr e ↦ rw e (omega (arith, put_day-sum date ds))
]

put_days-sum :
    (dates : List String) (days : List Daily)
    → sum_of (λ d. d.requests) (put_days dates days) ≤ sum_of (λ d. d.requests) days
unfolding put_days
put_days-sum [] days = omega arith
put_days-sum (date ∷ rest) days =
    omega (arith, put_days-sum rest (put_day date days), put_day-sum date days)

module _ (dates : List String) (days : List Daily)
    (same : (q : String) → has_day q days ≡ has_date q dates) where
  counted-keep :
      (usages : List Usage)
      → sum_of (counted days) usages
        ≡ sum_of (λ i. i.request_count) (keep (λ i. has_date i.day dates) usages)
  counted-keep [] = refl
  counted-keep (i ∷ rest) = elim (Bool-cases (has_date i.day dates)) [
    | inl e ↦ rw (same i.day, e, keep) (omega (arith, counted-keep rest))
    | inr e ↦ rw (same i.day, e, keep) (omega (arith, counted-keep rest))
  ]

-- The series accounts for the requests of the chosen data exactly, in so far as their days are
-- among the days that the chart shows.
pub process_time_series_data-sum :
    (c : Calendar) (s : Dashboard)
    → sum_of (λ d. d.requests) (process_time_series_data c s)
      ≡ sum_of
          (λ i. i.request_count)
          (keep (λ i. has_date i.day (dates c s)) (get_filtered_data c s))
unfolding process_time_series_data
process_time_series_data-sum c s =
    let days = put_days (dates c s) [] in
    let shown = count_usages (get_filtered_data c s) days in
    let same : (q : String) → has_day q days ≡ has_date q (dates c s) =
      λ q. ground (arith, put_days-has_day (dates c s) q []) in
    sum_of-sort (λ d. d.requests) (λ a b. c.locale_greater a.date b.date) shown
    ∙ omega (
      arith,
      count_usages-sum (get_filtered_data c s) days,
      put_days-sum (dates c s) [],
      counted-keep (dates c s) days same (get_filtered_data c s),
    )
