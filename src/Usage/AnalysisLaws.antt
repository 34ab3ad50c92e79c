-- ===== src/Usage/AnalysisLaws.antt =====
-- The analysis by model: what each model is charged with, and in which order the models stand.
use Prim.Native.Nat.{max}
use lite_nova.Prelude.{
  ℕ, ◌+◌, ◌≡◌, refl, ◌∙◌, ap, sym, String, List, [], ◌∷◌, none, some, arith, map, All, All-map,
  All-image, ltb,
}
use lite_nova.Sums.{sum_of, sum_of-map, sum_of-sort}
use lite_nova.Sorting.Laws.{IsSorted, All-sort, sort-IsSorted}
use lite_nova.Grouping.Laws.{
  lookup, of_key, extend, lookup-group, group-IsMap, sum_of-group, IsMap-entries, IsApart,
  IsApart-map, IsApart-sort, IsMap-IsApart,
}
use lite_nova.Usage.{Raw, TimeGranularity, Calendar, aggregate_by_time}
use lite_nova.Usage.Money.{Rate, cost_cents}
use lite_nova.Usage.Tokens.{reduce}
use lite_nova.Usage.Analysis.{
  Totals, first_totals, more_totals, model_map, ModelStats, model_stats, model_list,
  compute_model_analysis, model_point, LabeledTimeSeries,
}

-- The rows of a model.
abbrev pub rows_of : String → List Raw → List Raw
rows_of name rs = of_key (λ r. r.model_name) name rs

-- The longest of the longest times.
abbrev pub longest : List Raw → ℕ
longest [] = 0
longest (r ∷ rs) = max r.max_use_time (longest rs)

abbrev Charges : Totals → List Raw → Type 0
Charges v rs =
    (v.requests ≡ sum_of (λ r. r.count) rs)
    × (v.input_tokens ≡ sum_of (λ r. r.prompt_tokens) rs)
    × (v.output_tokens ≡ sum_of (λ r. r.completion_tokens) rs)
    × (v.quota ≡ sum_of (λ r. r.quota) rs)
    × (v.max_use_time ≡ longest rs)

extend_more :
    (rs : List Raw) (v w : Totals)
    → extend (λ r. r.model_name) first_totals more_totals (some v) rs ≡ some w
    → (w.requests ≡ v.requests + sum_of (λ r. r.count) rs)
      × (w.input_tokens ≡ v.input_tokens + sum_of (λ r. r.prompt_tokens) rs)
      × (w.output_tokens ≡ v.output_tokens + sum_of (λ r. r.completion_tokens) rs)
      × (w.quota ≡ v.quota + sum_of (λ r. r.quota) rs)
      × (w.max_use_time ≡ max v.max_use_time (longest rs))
extend_more [] v w h = ground arith
extend_more (r ∷ rs) v w h = omega (arith, extend_more rs (more_totals r v) w h)

extend-Charges :
    (rs : List Raw) (w : Totals)
    → extend (λ r. r.model_name) first_totals more_totals none rs ≡ some w
    → Charges w rs
extend-Charges [] w h = cc
extend-Charges (r ∷ rs) w h = omega (arith, extend_more rs (first_totals r) w h)

model_map-Charges : (rs : List Raw) → All (λ e. Charges e.1 (rows_of e.0 rs)) (model_map rs)
unfolding model_map
model_map-Charges rs =
    All-map
      (λ (e : String × Totals) (found : lookup e.0 (model_map rs) ≡ some e.1).
        extend-Charges (rows_of e.0 rs) e.1
          (sym (lookup-group (λ r. r.model_name) first_totals more_totals rs e.0 []) ∙ found))
      (model_map rs) (IsMap-entries (model_map rs) (group-IsMap _ _ _ rs [] tt))

module _ (lower : String → String) (rs : List Raw) (rate : Rate) where
  -- Each model that is listed is charged with the requests, the tokens and the rounded cost of
  -- exactly the rows of its name, its latency is their longest, and no model is listed twice.
  pub model_list-rows :
      All
        (λ m.
          (m.requests ≡ sum_of (λ r. r.count) (rows_of m.model_id rs))
          × (m.input_tokens ≡ sum_of (λ r. r.prompt_tokens) (rows_of m.model_id rs))
          × (m.output_tokens ≡ sum_of (λ r. r.completion_tokens) (rows_of m.model_id rs))
          × (m.cost ≡ cost_cents rate (sum_of (λ r. r.quota) (rows_of m.model_id rs)))
          × (m.p99_latency ≡ longest (rows_of m.model_id rs)))
        (model_list lower rs rate)
      × IsApart (λ m. m.model_id) (model_list lower rs rate)
  unfolding model_list model_stats model_map
  model_list-rows =
      let total = reduce (λ e. e.1.quota) 0 (model_map rs) in
      let P : ModelStats → Type 0 = λ m.
        (m.requests ≡ sum_of (λ r. r.count) (rows_of m.model_id rs))
        × (m.input_tokens ≡ sum_of (λ r. r.prompt_tokens) (rows_of m.model_id rs))
        × (m.output_tokens ≡ sum_of (λ r. r.completion_tokens) (rows_of m.model_id rs))
        × (m.cost ≡ cost_cents rate (sum_of (λ r. r.quota) (rows_of m.model_id rs)))
        × (m.p99_latency ≡ longest (rows_of m.model_id rs)) in
      (
        All-sort (λ a b. ltb a.cost b.cost) P _
            (All-image P (model_stats lower rate total) (model_map rs) (
              All-map
                (λ (e : String × Totals) (h : Charges e.1 (rows_of e.0 rs)).
                  (h.0, h.1, h.2, ap (cost_cents rate) h.3, h.4))
                (model_map rs) (model_map-Charges rs))),
        IsApart-sort (λ m. m.model_id) (λ a b. ltb a.cost b.cost) _
            (IsApart-map (λ m. m.model_id) (model_stats lower rate total) (model_map rs)
              (IsMap-IsApart (model_map rs) (group-IsMap _ _ _ rs [] tt))),
      )

  -- The models stand by falling cost, each has its own trend under its name, and together they have
  -- all requests of the data.
  pub compute_model_analysis-IsSorted :
      (c : Calendar) (g : TimeGranularity)
      → let a = compute_model_analysis c lower rs g rate in
        IsSorted (λ x y. ltb x.cost y.cost) a.models
        × (map (λ t. t.label) a.trends ≡ map (λ m. m.model_id) a.models)
        × (sum_of (λ m. m.requests) a.models ≡ sum_of (λ r. r.count) rs)
  unfolding compute_model_analysis model_list model_stats model_map
  compute_model_analysis-IsSorted c g =
      let gt = λ (x y : ModelStats). ltb x.cost y.cost in
      let stats = model_stats lower rate (reduce (λ e. e.1.quota) 0 (model_map rs)) in
      (
        sort-IsSorted gt
            (record { asym = λ x y h. ground arith; trans = λ x y z h k. ground arith })
            (map stats (model_map rs)),
        labels (model_list lower rs rate),
        sum_of-sort (λ (m : ModelStats). m.requests) gt (map stats (model_map rs))
            ∙ sum_of-map (λ (m : ModelStats). m.requests) stats (model_map rs)
            ∙ sum_of-group (λ r. r.model_name) first_totals more_totals (λ v. v.requests)
                (λ r. r.count) (λ r. refl) (λ r v. refl) rs []
            ∙ omega arith,
      )
    where
      labels :
          (ms : List ModelStats)
          → map
              (λ (t : LabeledTimeSeries). t.label)
              (map
                (λ (m : ModelStats). record {
                  label = m.model_id;
                  points = map (model_point rate m.model_id) (aggregate_by_time c rs g);
                })
                ms)
            ≡ map (λ (m : ModelStats). m.model_id) ms
      labels [] = refl
      labels (m ∷ ms) = ap (m.model_id ∷◌) (labels ms)
