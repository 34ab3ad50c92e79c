-- ===== src/Usage/CostLaws.antt =====
-- The trend of the costs.
use mathlib.Core.Path.{subst}
use native.Mathlib.Nat.{div-mul-le_self, lt-div-mul-add, mul-le-mul, le_refl}
use lite_nova.Prelude.{
  ℕ, ◌+◌, ◌*◌, ◌≡◌, ◌≤◌, ◌<◌, inl, inr, refl, ◌∙◌, ap, sym, false, Bool, String, List, [], ◌∷◌,
  arith, All, ltb, ltb→lt, leb, leb→le, Bool-cases, ◌||◌,
}
use lite_nova.Sums.{sum_of}
use lite_nova.Usage.{Raw, TimeGranularity, Calendar, TimeBucket, aggregate_by_time}
use lite_nova.Usage.Money.{Rate, round_ratio, cost_cents}
use lite_nova.Usage.Tokens.{reduce}
use lite_nova.Usage.TokenLaws.{reduce-zero}
use lite_nova.Usage.Summary.{has_upstream_cost}
use lite_nova.Usage.Costs.{
  Fraction, add_fraction, nothing, cost_part, input_part, output_part, add_parts, fraction_cents,
  cost_point, cost_points, compute_cost_trend,
}

-- `m` is `n / d`, rounded.
abbrev Rounds : (m n d : ℕ) → Type 0
Rounds m n d = (m * (2 * d) ≤ 2 * n + d) × (2 * n + d < m * (2 * d) + 2 * d)

rounded : (n d : ℕ) → 0 < d → Rounds (round_ratio n d) n d
unfolding round_ratio
rounded n d k =
    (div-mul-le_self (2 * n + d) (2 * d), lt-div-mul-add {a = 2 * n + d} {b = 2 * d} (omega arith))

-- Two parts of an amount, each rounded, and the amount rounded.
cents_sum :
    (i o q d n A B T : ℕ)
    → 0 < d
    → 0 < n
    → (i + o) * n ≡ d * q
    → Rounds A (i * 100) d
    → Rounds B (o * 100) d
    → Rounds T (q * 100) n
    → (A + B ≤ T + 1) × (T ≤ A + B + 1)
cents_sum i o q d n A B T k l h (a, a') (b, b') (t, t') =
    let dn = mul-le-mul k l in
    let an = mul-le-mul a (le_refl n) in
    let an' = mul-le-mul a' (le_refl n) in
    let bn = mul-le-mul b (le_refl n) in
    let bn' = mul-le-mul b' (le_refl n) in
    let td = mul-le-mul t (le_refl d) in
    let td' = mul-le-mul t' (le_refl d) in
    (
      elim (Bool-cases (leb (A + B) (T + 1))) [
        | inl e ↦ leb→le (A + B) (T + 1) e
        | inr e ↦
            let far : T + 2 ≤ A + B = ground arith in
            absurd (omega (arith, an, bn, td', h, dn, mul-le-mul far (le_refl (d * n))))
      ],
      elim (Bool-cases (leb T (A + B + 1))) [
        | inl e ↦ leb→le T (A + B + 1) e
        | inr e ↦
            let far : A + B + 2 ≤ T = ground arith in
            absurd (omega (arith, an', bn', td, h, dn, mul-le-mul far (le_refl (d * n))))
      ],
    )

module _ (rate : Rate) (positive : 0 < rate.den) where
  -- Two fractions with one denominator make up a quota.
  abbrev Makes : Fraction → Fraction → ℕ → Type 0
  Makes a b quota =
      (a.den ≡ b.den) × (0 < a.den) × ((a.num + b.num) * rate.den ≡ a.den * (quota * rate.num))

  parts-Makes : (r : Raw) → Makes (input_part rate r) (output_part rate r) r.quota
  unfolding cost_part
  parts-Makes r = elim (Bool-cases (ltb 0 (r.prompt_tokens + r.completion_tokens))) [
    | inl e ↦ rw e (
      refl,
      mul-le-mul positive (ltb→lt 0 (r.prompt_tokens + r.completion_tokens) e),
      omega arith,
    )
    | inr e ↦ rw e (refl, omega arith, omega arith)
  ]

  add_fraction-Makes :
      (a b x y : Fraction) (q p : ℕ)
      → Makes a b q
      → Makes x y p
      → Makes (add_fraction a x) (add_fraction b y) (q + p)
  add_fraction-Makes a b x y q p (e, k, h) (e', k', h') = (
    ap (λ z. z * x.den) e ∙ ap (λ z. b.den * z) e',
    mul-le-mul k k',
    omega (
      arith,
      ap (λ z. z * x.den) h,
      ap (λ z. z * a.den) h',
      ap (λ z. b.num * z * rate.den) e',
      ap (λ z. y.num * z * rate.den) e,
    ),
  )

  add_parts-Makes :
      (rs : List Raw) (a b : Fraction) (q : ℕ)
      → Makes a b q
      → Makes
          (add_parts (input_part rate) rs a)
          (add_parts (output_part rate) rs b)
          (q + sum_of (λ r. r.quota) rs)
  unfolding add_parts
  add_parts-Makes [] a b q m =
      let (e, k, h) = m in
      (e, k, h ∙ ap (λ z. a.den * (z * rate.num)) (let e : q ≡ q + 0 = omega arith in e))
  add_parts-Makes (r ∷ rs) a b q m =
      let step =
        add_fraction-Makes a b (input_part rate r) (output_part rate r) q r.quota m
          (parts-Makes r) in
      let rest = add_parts-Makes rs _ _ (q + r.quota) step in
      let same : q + r.quota + sum_of (λ r. r.quota) rs ≡ q + (r.quota + sum_of (λ r. r.quota) rs) =
        omega arith in
      rw same at rest

  Makes-cents :
      (a b : Fraction) (quota : ℕ)
      → Makes a b quota
      → (fraction_cents a + fraction_cents b ≤ cost_cents rate quota + 1)
        × (cost_cents rate quota ≤ fraction_cents a + fraction_cents b + 1)
  unfolding fraction_cents cost_cents
  Makes-cents a b quota (e, k, h) =
      cents_sum a.num b.num (quota * rate.num) a.den rate.den _ _ _ k positive h
        (rounded (a.num * 100) a.den k)
        (subst (λ d. Rounds (fraction_cents b) (b.num * 100) d) (sym e)
          (rounded (b.num * 100) b.den (omega arith)))
        (rounded (quota * rate.num * 100) rate.den positive)

  cost_point-cents :
      (has_upstream : Bool) (b : TimeBucket)
      → let d = cost_point rate has_upstream b in
        (d.input_cost + d.output_cost ≤ d.total_cost + 1)
        × (d.total_cost ≤ d.input_cost + d.output_cost + 1)
        × (d.total_cost ≡ cost_cents rate (sum_of (λ r. r.quota) b.records))
  unfolding cost_point
  cost_point-cents has_upstream b =
      let start : Makes nothing nothing 0 = (refl, omega arith, omega arith) in
      let same : cost_cents rate (reduce (λ r. r.quota) 0 b.records)
          ≡ cost_cents rate (sum_of (λ r. r.quota) b.records) =
        ap (cost_cents rate) (reduce-zero (λ r. r.quota) b.records) in
      let total : 0 + sum_of (λ r. r.quota) b.records ≡ sum_of (λ r. r.quota) b.records =
        omega arith in
      let (up, low) =
        Makes-cents _ _ (sum_of (λ r. r.quota) b.records)
          (rw total at (add_parts-Makes b.records nothing nothing 0 start)) in
      (rw same up, rw same low, same)

  cost_points-cents :
      (has_upstream : Bool) (bs : List TimeBucket)
      → All
          (λ d.
            (d.input_cost + d.output_cost ≤ d.total_cost + 1)
            × (d.total_cost ≤ d.input_cost + d.output_cost + 1))
          (cost_points rate has_upstream bs)
  unfolding cost_points
  cost_points-cents has_upstream [] = tt
  cost_points-cents has_upstream (b ∷ bs) =
      let now = has_upstream || has_upstream_cost b.records in
      let (up, low, _) = cost_point-cents now b in ((up, low), cost_points-cents now bs)

  -- In each point of the trend the rounded costs of input and of output add up to the rounded cost
  -- of the point within one cent, whatever the rows and the rate, if its denominator is not zero.
  pub compute_cost_trend-cents :
      (c : Calendar) (text_greater : String → String → Bool) (rs : List Raw) (g : TimeGranularity)
      → All
          (λ d.
            (d.input_cost + d.output_cost ≤ d.total_cost + 1)
            × (d.total_cost ≤ d.input_cost + d.output_cost + 1))
          (compute_cost_trend c text_greater rs g rate).series
  unfolding compute_cost_trend
  compute_cost_trend-cents c text_greater rs g = cost_points-cents false (aggregate_by_time c rs g)
