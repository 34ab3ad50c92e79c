-- ===== src/Dashboard/Bars.antt =====
-- `processModelBarData` of pages/Dashboard/index.js.
use lite_nova.Prelude.{ℕ, String, List, [], ◌∷◌, str_eq, if◌then◌else◌}
use lite_nova.Sorting.{sort}
use lite_nova.Dashboard.{Usage, Calendar, Dashboard, tokens, dates, get_filtered_data}

-- A value of `timeData`: the date, and the fields of the models. No model is named `date`.
pub record Bar : Type 0 where
  pub date : String
  pub values : List (String × ℕ)

-- `[...new Set(names)]`
unfoldable pub add_name : String → List String → List String
add_name name [] = name ∷ []
add_name name (n ∷ names) = if str_eq n name then n ∷ names else n ∷ add_name name names

unfoldable pub models_of : List Usage → List String → List String
unfolding add_name
models_of [] names = names
models_of (i ∷ rest) names = models_of rest (add_name i.model_name names)

-- `bar[name] = value`
unfoldable pub set_value : String → ℕ → List (String × ℕ) → List (String × ℕ)
set_value name value [] = (name, value) ∷ []
set_value name value ((n, v) ∷ values) =
    if str_eq n name then (n, value) ∷ values else (n, v) ∷ set_value name value values

unfoldable pub zeros : List String → List (String × ℕ) → List (String × ℕ)
unfolding set_value
zeros [] values = values
zeros (name ∷ names) values = zeros names (set_value name 0 values)

-- `timeData[dateStr] = { date: dateStr }`, and a 0 for each model
unfoldable pub put_bar : List String → String → List Bar → List Bar
unfolding zeros
put_bar models date [] = record { date = date; values = zeros models [] } ∷ []
put_bar models date (b ∷ bars) =
    if str_eq b.date date
    then record { date = date; values = zeros models [] } ∷ bars
    else b ∷ put_bar models date bars

unfoldable pub put_bars : List String → List String → List Bar → List Bar
unfolding put_bar
put_bars models [] bars = bars
put_bars models (date ∷ rest) bars = put_bars models rest (put_bar models date bars)

-- `if (timeData[item.Day]) timeData[item.Day][item.ModelName] = …`
unfoldable pub set_usage : Usage → List Bar → List Bar
unfolding set_value
set_usage i [] = []
set_usage i (b ∷ bars) =
    if str_eq b.date i.day
    then record b { values = set_value i.model_name (tokens i) b.values } ∷ bars
    else b ∷ set_usage i bars

unfoldable pub set_usages : List Usage → List Bar → List Bar
unfolding set_usage
set_usages [] bars = bars
set_usages (i ∷ rest) bars = set_usages rest (set_usage i bars)

pub record BarData : Type 0 where
  pub bar_data : List Bar
  pub models : List String

-- `processModelBarData`
unfoldable pub process_model_bar_data : Calendar → Dashboard → BarData
unfolding models_of put_bars set_usages
process_model_bar_data c s =
    let filtered = get_filtered_data c s in
    let models = models_of filtered [] in
    record {
      bar_data =
          sort (λ a b. c.locale_greater a.date b.date)
            (set_usages filtered (put_bars models (dates c s) []));
      models = models;
    }
