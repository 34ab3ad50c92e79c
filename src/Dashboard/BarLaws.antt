-- ===== src/Dashboard/BarLaws.antt =====
-- Which rows the heights of the bars show.
use lite_nova.Prelude.{
  ℕ, ◌≡◌, refl, ◌∙◌, false, ◌&&◌, String, List, [], ◌∷◌, str_eq, eq_iff, if◌then◌else◌, Bool-cases,
  inl, inr, All, arith,
}
use lite_nova.Sorting.Laws.{All-sort}
use lite_nova.Grouping.Laws.{IsApart}
use lite_nova.Dashboard.{Usage, Calendar, Dashboard, tokens, dates, get_filtered_data}
use lite_nova.Dashboard.Bars.{
  Bar, models_of, set_value, zeros, put_bar, put_bars, set_usage, set_usages,
  process_model_bar_data,
}

-- The height of a model in a bar.
abbrev pub get_value : String → List (String × ℕ) → ℕ
get_value name [] = 0
get_value name ((n, v) ∷ values) = if str_eq n name then v else get_value name values

-- The tokens of the last row of a day and a model, or another number if there is none.
abbrev pub last_tokens : (date name : String) → List Usage → ℕ → ℕ
last_tokens date name [] n = n
last_tokens date name (i ∷ rest) n =
    last_tokens date name rest
      (if str_eq date i.day && str_eq i.model_name name then tokens i else n)

get_value-set_value :
    (q name : String) (value : ℕ) (values : List (String × ℕ))
    → get_value q (set_value name value values)
      ≡ (if str_eq name q then value else get_value q values)
unfolding set_value
get_value-set_value q name value [] = refl
get_value-set_value q name value ((n, v) ∷ values) =
    ground
      (arith, eq_iff name q, eq_iff n name, eq_iff n q, get_value-set_value q name value values)

get_value-zeros :
    (q : String) (names : List String) (values : List (String × ℕ))
    → get_value q values ≡ 0
    → get_value q (zeros names values) ≡ 0
unfolding zeros
get_value-zeros q [] values h = h
get_value-zeros q (name ∷ names) values h =
    get_value-zeros q names (set_value name 0 values)
      (get_value-set_value q name 0 values ∙ ground arith)

-- The values of each bar, by its date.
abbrev Holds : (String → String → ℕ) → List Bar → Type 0
Holds f bars = All (λ b. (name : String) → get_value name b.values ≡ f b.date name) bars

-- The bars stand for different days.
abbrev AreDays : List Bar → Type 0
AreDays bars = IsApart (λ b. b.date) bars

-- The heights after a row.
abbrev after_usage : Usage → (String → String → ℕ) → String → String → ℕ
after_usage i f date name =
    if str_eq date i.day && str_eq i.model_name name then tokens i else f date name

-- The bars behind that of the row are those of other days.
after_usage-Holds :
    (i : Usage) (f : String → String → ℕ) (bars : List Bar)
    → All (λ b. str_eq i.day b.date ≡ false) bars
    → Holds f bars
    → Holds (after_usage i f) bars
after_usage-Holds i f [] n h = tt
after_usage-Holds i f (b ∷ bars) (e, n) (p, h) =
    (λ name. p name ∙ after_usage_ne i f b.date name e, after_usage-Holds i f bars n h)
  where
    after_usage_ne :
        (i : Usage) (f : String → String → ℕ) (date name : String)
        → str_eq i.day date ≡ false
        → f date name ≡ after_usage i f date name
    after_usage_ne i f date name e = ground (arith, eq_iff i.day date, eq_iff date i.day)

set_usage-Holds :
    (i : Usage) (f : String → String → ℕ) (bars : List Bar)
    → AreDays bars
    → Holds f bars
    → Holds (after_usage i f) (set_usage i bars)
unfolding set_usage
set_usage-Holds i f [] a h = tt
set_usage-Holds i f (b ∷ bars) (new, a) (p, h) = elim (Bool-cases (str_eq b.date i.day)) [
  | inl e ↦
      let same : b.date ≡ i.day = (eq_iff b.date i.day).0 e in
      rw e (
        λ name. get_value-set_value name i.model_name (tokens i) b.values ∙ rw (e, p name) refl,
        after_usage-Holds i f bars (rw same at new) h,
      )
  | inr e ↦ rw e (λ name. p name ∙ rw e refl, set_usage-Holds i f bars a h)
]

set_usage-All :
    (P : String → Type 0) (i : Usage) (bars : List Bar)
    → All (λ b. P b.date) bars
    → All (λ b. P b.date) (set_usage i bars)
unfolding set_usage
set_usage-All P i [] h = tt
set_usage-All P i (b ∷ bars) (p, h) = elim (Bool-cases (str_eq b.date i.day)) [
  | inl e ↦ rw e (p, h)
  | inr e ↦ rw e (p, set_usage-All P i bars h)
]

set_usage-AreDays : (i : Usage) (bars : List Bar) → AreDays bars → AreDays (set_usage i bars)
unfolding set_usage
set_usage-AreDays i [] a = tt
set_usage-AreDays i (b ∷ bars) (new, a) = elim (Bool-cases (str_eq b.date i.day)) [
  | inl e ↦ rw e (new, a)
  | inr e ↦
      rw e
        (set_usage-All (λ date. str_eq b.date date ≡ false) i bars new, set_usage-AreDays i bars a)
]

set_usages-Holds :
    (rest : List Usage) (f : String → String → ℕ) (bars : List Bar)
    → AreDays bars
    → Holds f bars
    → Holds (λ date name. last_tokens date name rest (f date name)) (set_usages rest bars)
unfolding set_usages
set_usages-Holds [] f bars a h = h
set_usages-Holds (i ∷ rest) f bars a h =
    set_usages-Holds rest (after_usage i f) (set_usage i bars) (set_usage-AreDays i bars a)
      (set_usage-Holds i f bars a h)

put_bar-All :
    (P : String → Type 0) (models : List String) (date : String) (bars : List Bar)
    → P date
    → All (λ b. P b.date) bars
    → All (λ b. P b.date) (put_bar models date bars)
unfolding put_bar
put_bar-All P models date [] q h = (q, tt)
put_bar-All P models date (b ∷ bars) q (p, h) = elim (Bool-cases (str_eq b.date date)) [
  | inl e ↦ rw e (q, h)
  | inr e ↦ rw e (p, put_bar-All P models date bars q h)
]

put_bar-AreDays :
    (models : List String) (date : String) (bars : List Bar)
    → AreDays bars
    → AreDays (put_bar models date bars)
unfolding put_bar
put_bar-AreDays models date [] a = (tt, tt)
put_bar-AreDays models date (b ∷ bars) (new, a) = elim (Bool-cases (str_eq b.date date)) [
  | inl e ↦ rw e (rw ((eq_iff b.date date).0 e) at new, a)
  | inr e ↦ rw e (
    put_bar-All (λ d. str_eq b.date d ≡ false) models date bars e new,
    put_bar-AreDays models date bars a,
  )
]

put_bar-Holds :
    (models : List String) (date : String) (bars : List Bar)
    → Holds (λ date name. 0) bars
    → Holds (λ date name. 0) (put_bar models date bars)
unfolding put_bar
put_bar-Holds models date [] h = (λ name. get_value-zeros name models [] refl, tt)
put_bar-Holds models date (b ∷ bars) (p, h) = elim (Bool-cases (str_eq b.date date)) [
  | inl e ↦ rw e (λ name. get_value-zeros name models [] refl, h)
  | inr e ↦ rw e (p, put_bar-Holds models date bars h)
]

put_bars-fresh :
    (models rest : List String) (bars : List Bar)
    → AreDays bars
    → Holds (λ date name. 0) bars
    → AreDays (put_bars models rest bars) × Holds (λ date name. 0) (put_bars models rest bars)
unfolding put_bars
put_bars-fresh models [] bars a h = (a, h)
put_bars-fresh models (date ∷ rest) bars a h =
    put_bars-fresh models rest (put_bar models date bars) (put_bar-AreDays models date bars a)
      (put_bar-Holds models date bars h)

-- In each bar the height of a model is the tokens of the last of the filtered rows with that day and
-- that model, or 0 if there is none: the rows before it are not counted.
pub process_model_bar_data-last_tokens :
    (c : Calendar) (s : Dashboard)
    → All
        (λ b.
          (name : String)
          → get_value name b.values ≡ last_tokens b.date name (get_filtered_data c s) 0)
        (process_model_bar_data c s).bar_data
unfolding process_model_bar_data
process_model_bar_data-last_tokens c s =
    let models = models_of (get_filtered_data c s) [] in
    let (a, h) = put_bars-fresh models (dates c s) [] tt tt in
    All-sort (λ x y. c.locale_greater x.date y.date) _ _
      (set_usages-Holds (get_filtered_data c s) (λ date name. 0) (put_bars models (dates c s) []) a
        h)
