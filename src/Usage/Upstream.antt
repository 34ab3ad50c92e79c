-- ===== src/Usage/Upstream.antt =====
-- Which points of the trend of the costs show a cost upstream.
use lite_nova.Prelude.{
  ℕ, ◌+◌, ◌≡◌, refl, ◌∙◌, ap, true, false, Bool, List, [], ◌∷◌, ◌++◌, some, none, if◌then◌else◌,
  Option, arith, get_elem?, ltb, length, ◌||◌,
}
use lite_nova.Sums.{sum_of}
use lite_nova.Usage.{Raw, TimeBucket}
use lite_nova.Usage.Money.{Rate}
use lite_nova.Usage.TokenLaws.{reduce-zero}
use lite_nova.Usage.Summary.{given, has_upstream_cost, when}
use lite_nova.Usage.Costs.{CostDataPoint, cost_point, cost_points, micro_cents}

-- 1 for a row with a cost upstream, a cost of 0 included.
abbrev pub upstream_count : Raw → ℕ
upstream_count r = elim r.upstream_cost [ none ↦ 0 | some n ↦ 1 ]

-- The rows of the buckets that have a cost upstream.
abbrev pub upstream_rows : List TimeBucket → ℕ
upstream_rows bs = sum_of (λ b. sum_of upstream_count b.records) bs

has_upstream_cost-count : (rs : List Raw) → has_upstream_cost rs ≡ ltb 0 (sum_of upstream_count rs)
unfolding has_upstream_cost
has_upstream_cost-count [] = refl
has_upstream_cost-count (r ∷ rs) = on_cost (has_upstream_cost-count rs) r.upstream_cost refl
  where
    on_cost :
        has_upstream_cost rs ≡ ltb 0 (sum_of upstream_count rs)
        → (u : Option ℕ) → r.upstream_cost ≡ u
        → has_upstream_cost (r ∷ rs) ≡ ltb 0 (upstream_count r + sum_of upstream_count rs)
    on_cost rest none e = rw e (ground (arith, rest))
    on_cost rest (some n) e = rw e (ground arith)

when-eq : {A : Type 0} (t : Bool) (a : A) → when t a ≡ (if t then some a else none)
when-eq true a = refl
when-eq false a = refl

cost_points-flag :
    (rate : Rate) (has_upstream : Bool) (before : List TimeBucket) (b : TimeBucket)
    (later : List TimeBucket)
    → (d : CostDataPoint) × (get_elem?
          (cost_points rate has_upstream (before ++ b ∷ later))
          (length before)
        ≡ some d)
      × (d.date ≡ b.date_key)
      × (d.upstream_cost
          ≡ when
              (has_upstream || ltb 0 (upstream_rows (before ++ b ∷ [])))
              (micro_cents (sum_of (λ r. given r.upstream_cost) b.records)))
unfolding cost_points cost_point
cost_points-flag rate has_upstream [] b later =
    let now = has_upstream || has_upstream_cost b.records in
    let same : now ≡ (has_upstream || ltb 0 (sum_of upstream_count b.records + 0)) =
      ground (arith, has_upstream_cost-count b.records) in
    (
      cost_point rate now b,
      refl,
      refl,
      ap (λ n. when now (micro_cents n)) (reduce-zero (λ r. given r.upstream_cost) b.records)
          ∙ ap (λ f. when f (micro_cents (sum_of (λ r. given r.upstream_cost) b.records))) same,
    )
cost_points-flag rate has_upstream (a ∷ before) b later =
    let same : ((has_upstream || has_upstream_cost a.records)
          || ltb 0 (upstream_rows (before ++ b ∷ [])))
        ≡ (has_upstream || ltb 0 (upstream_rows (a ∷ before ++ b ∷ []))) =
      ground (arith, has_upstream_cost-count a.records) in
    let (d, here, date, cost) =
      cost_points-flag rate (has_upstream || has_upstream_cost a.records) before b later in
    (
      d,
      here,
      date,
      cost ∙ ap (λ f. when f (micro_cents (sum_of (λ r. given r.upstream_cost) b.records))) same,
    )

-- Whether a point shows a cost upstream depends on the order: it does exactly if some row of its
-- bucket or of an earlier one has such a cost, and then it shows the costs of its own rows.
pub cost_points-upstream :
    (rate : Rate) (before : List TimeBucket) (b : TimeBucket) (later : List TimeBucket)
    → (d : CostDataPoint) × (get_elem?
          (cost_points rate false (before ++ b ∷ later))
          (length before)
        ≡ some d)
      × (d.date ≡ b.date_key)
      × (d.upstream_cost ≡ (
          if ltb 0 (upstream_rows (before ++ b ∷ []))
          then some (micro_cents (sum_of (λ r. given r.upstream_cost) b.records))
          else none))
cost_points-upstream rate before b later =
    let (d, here, date, cost) = cost_points-flag rate false before b later in
    (
      d,
      here,
      date,
      cost
          ∙ when-eq (ltb 0 (upstream_rows (before ++ b ∷ [])))
              (micro_cents (sum_of (λ r. given r.upstream_cost) b.records)),
    )
