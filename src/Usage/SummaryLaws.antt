-- ===== src/Usage/SummaryLaws.antt =====
-- The summary: its totals, its bounds, and what a change of zero is.
use lite_nova.Prelude.{
  ℕ, ◌+◌, ◌-◌, ◌*◌, ◌/◌, ◌≡◌, ◌≤◌, ◌<◌, ◌⊎◌, inl, inr, refl, ◌∙◌, ap, true, false, Bool, List, [],
  ◌∷◌, none, some, arith, All, ltb, ltb→lt, Bool-cases,
}
use native.Mathlib.Nat.{div-eq_of_lt, div-lt_iff_lt-mul}
use lite_nova.Prelude.Int.{ℤ, pos, negsuc, ◌≤ℤ◌}
use lite_nova.Sums.{sum_of}
use lite_nova.Usage.{Raw}
use lite_nova.Usage.Money.{Rate, round_ratio, round_difference, cost_cents}
use lite_nova.Usage.TokenLaws.{reduce-zero}
use lite_nova.Usage.Summary.{
  flat, StatMetric, is_positive, build_metric, Period, period_of, success_rate, compute_summary,
  has_upstream_cost, when,
}

-- The metric is flat and its rate of change is zero.
abbrev pub IsFlat : StatMetric → Type 0
IsFlat m = (m.change_rate ≡ pos 0) × (m.trend ≡ flat)

round_difference_self : (m n d : ℕ) → n ≡ m → 0 < d → round_difference m n d ≡ pos 0
unfolding round_difference round_ratio
round_difference_self m n d e h =
    let small : (2 * (m - n) + d) / (2 * d) ≡ 0 = div-eq_of_lt (omega arith) in
    ground (arith, small)

-- A value against itself is flat.
build_metric-IsFlat : (z : ℤ) → IsFlat (build_metric z z)
unfolding build_metric
build_metric-IsFlat (negsuc n) = (refl, refl)
build_metric-IsFlat (pos n) = elim (Bool-cases (ltb 0 n)) [
  | inl e ↦ rw e (round_difference_self (n * 1000) _ n (omega arith) (ltb→lt 0 n e), ground arith)
  | inr e ↦ rw e (refl, refl)
]

-- A period against itself: every metric of the summary is flat, with a change of zero.
pub compute_summary-IsFlat :
    (rs : List Raw) (rate : Rate)
    → let s = compute_summary rs rs rate in
      IsFlat s.total_requests
      × IsFlat s.total_tokens
      × IsFlat s.total_cost
      × IsFlat s.avg_latency
      × IsFlat s.success_rate
      × IsFlat s.active_models
      × ((s.upstream_cost ≡ none) ⊎ ((m : StatMetric) × (s.upstream_cost ≡ some m) × IsFlat m))
      × ((s.profit_margin ≡ none) ⊎ ((m : StatMetric) × (s.profit_margin ≡ some m) × IsFlat m))
unfolding compute_summary
compute_summary-IsFlat rs rate = (
  build_metric-IsFlat _,
  build_metric-IsFlat _,
  build_metric-IsFlat _,
  build_metric-IsFlat _,
  build_metric-IsFlat _,
  build_metric-IsFlat _,
  when_flat (has_upstream_cost rs) _ (build_metric-IsFlat _),
  when_flat (has_upstream_cost rs) _ (build_metric-IsFlat _),
)
  where
    when_flat :
        (b : Bool) (m : StatMetric)
        → IsFlat m
        → (when b m ≡ none) ⊎ ((m' : StatMetric) × (when b m ≡ some m') × IsFlat m')
    when_flat true m h = inr (m, refl, h)
    when_flat false m h = inl refl

build_metric-value : (z w : ℤ) → (build_metric z w).value ≡ z
unfolding build_metric
build_metric-value z w = elim (Bool-cases (is_positive w)) [ inl e ↦ rw e refl | inr e ↦ rw e refl ]

-- A part of a whole, in hundredths of a percent.
round_difference-percent :
    (n e : ℕ)
    → e ≤ n
    → 0 < n
    → (pos 0 ≤ℤ round_difference (n * 10000) (e * 10000) n)
      × (round_difference (n * 10000) (e * 10000) n ≤ℤ pos 10000)
unfolding round_difference round_ratio
round_difference-percent n e h k =
    let part : ℕ = n * 10000 - e * 10000 in
    let bound : (2 * part + n) / (2 * n) < 10001 =
      (div-lt_iff_lt-mul {k = 2 * n} {x = 2 * part + n} {y = 10001} (omega arith)).1
        (omega arith) in
    ground (arith, bound)

success_rate-percent :
    (p : Period) → p.errors ≤ p.requests → (pos 0 ≤ℤ success_rate p) × (success_rate p ≤ℤ pos 10000)
unfolding success_rate
success_rate-percent p h = elim (Bool-cases (ltb 0 p.requests)) [
  | inl e ↦ rw e (round_difference-percent p.requests p.errors h (ltb→lt 0 p.requests e))
  | inr e ↦ rw e (omega arith)
]

sum_of-All-le :
    (f g : Raw → ℕ) (rs : List Raw) → All (λ r. f r ≤ g r) rs → sum_of f rs ≤ sum_of g rs
sum_of-All-le f g [] h = omega arith
sum_of-All-le f g (r ∷ rs) (p, h) = omega (arith, sum_of-All-le f g rs h)

-- A success rate is a percentage where no row counts more errors than requests, and the totals of
-- the summary are the sums over the data.
pub compute_summary-sum :
    (rs previous : List Raw) (rate : Rate)
    → All (λ r. r.error_count ≤ r.count) rs
    → let s = compute_summary rs previous rate in
      (s.total_requests.value ≡ pos (sum_of (λ r. r.count) rs))
      × (s.total_tokens.value ≡ pos (sum_of (λ r. r.token_used) rs))
      × (s.total_cost.value ≡ pos (cost_cents rate (sum_of (λ r. r.quota) rs)))
      × (pos 0 ≤ℤ s.success_rate.value)
      × (s.success_rate.value ≤ℤ pos 10000)
unfolding compute_summary period_of
compute_summary-sum rs previous rate fair =
    let requests = reduce-zero (λ r. r.count) rs in
    let rate_bounds = success_rate-percent (period_of rs) (
      omega (
        arith,
        requests,
        reduce-zero (λ r. r.error_count) rs,
        sum_of-All-le (λ r. r.error_count) (λ r. r.count) rs fair,
      )) in
    let value =
      build_metric-value (success_rate (period_of rs)) (success_rate (period_of previous)) in
    (
      build_metric-value _ _ ∙ ap pos requests,
      build_metric-value _ _ ∙ ap pos (reduce-zero (λ r. r.token_used) rs),
      build_metric-value _ _ ∙ ap (λ q. pos (cost_cents rate q)) (reduce-zero (λ r. r.quota) rs),
      rw value rate_bounds.0,
      rw value rate_bounds.1,
    )
