-- ===== src/Usage/TokenLaws.antt =====
-- The trend of the tokens accounts for every token, and its peak is the highest point.
use lite_nova.Prelude.{
  ℕ, ◌+◌, ◌≡◌, ◌≤◌, ◌∙◌, refl, sym, List, [], ◌∷◌, arith, map, All, ltb, if◌then◌else◌,
}
use lite_nova.Sums.{sum_of, sum_of-map, sum_of-cong}
use lite_nova.Usage.{Raw, TimeGranularity, Calendar, TimeBucket, aggregate_by_time}
use lite_nova.Usage.Buckets.{aggregate_by_time-sum}
use lite_nova.Usage.Tokens.{
  TokenDataPoint, reduce, token_point, peak_of, peak_day, trend_of, compute_token_trend,
}

pub reduce-eq-sum_of :
    {A : Type 0} (f : A → ℕ) (s : ℕ) (xs : List A) → reduce f s xs ≡ s + sum_of f xs
unfolding reduce
reduce-eq-sum_of f s [] = omega arith
reduce-eq-sum_of f s (x ∷ xs) = omega (arith, reduce-eq-sum_of f (s + f x) xs)

pub reduce-zero : {A : Type 0} (f : A → ℕ) (xs : List A) → reduce f 0 xs ≡ sum_of f xs
reduce-zero f xs = omega (arith, reduce-eq-sum_of f 0 xs)

sum_of-add :
    (rs : List Raw)
    → sum_of (λ r. r.prompt_tokens + r.completion_tokens) rs
      ≡ sum_of (λ r. r.prompt_tokens) rs + sum_of (λ r. r.completion_tokens) rs
sum_of-add [] = refl
sum_of-add (r ∷ rs) = omega (arith, sum_of-add rs)

module _ (c : Calendar) (rs : List Raw) (g : TimeGranularity) where
  abbrev points : List TokenDataPoint
  points = map token_point (aggregate_by_time c rs g)

  -- A field of the points that sums a field of the rows sums it over the data.
  points-sum :
      (f : Raw → ℕ) (field : TokenDataPoint → ℕ)
      → ((b : TimeBucket) → field (token_point b) ≡ sum_of f b.records)
      → sum_of field points ≡ sum_of f rs
  points-sum f field same =
      sum_of-map field token_point (aggregate_by_time c rs g)
      ∙ sum_of-cong (λ b. field (token_point b)) (λ b. sum_of f b.records)
          (aggregate_by_time c rs g) same
      ∙ aggregate_by_time-sum c g f rs

  -- The totals of the trend are the sums over the data, whatever the granularity, and the points of
  -- the series add up to them, in their tokens of each kind and in all, as their requests do to the
  -- requests of the data.
  pub compute_token_trend-sum :
      ((compute_token_trend c rs g).total_input ≡ sum_of (λ r. r.prompt_tokens) rs)
      × ((compute_token_trend c rs g).total_output ≡ sum_of (λ r. r.completion_tokens) rs)
      × ((compute_token_trend c rs g).total
          ≡ sum_of (λ r. r.prompt_tokens) rs + sum_of (λ r. r.completion_tokens) rs)
      × (sum_of (λ d. d.input_tokens) (compute_token_trend c rs g).series
          ≡ (compute_token_trend c rs g).total_input)
      × (sum_of (λ d. d.output_tokens) (compute_token_trend c rs g).series
          ≡ (compute_token_trend c rs g).total_output)
      × (sum_of (λ d. d.total_tokens) (compute_token_trend c rs g).series
          ≡ (compute_token_trend c rs g).total)
      × (sum_of (λ d. d.requests) (compute_token_trend c rs g).series ≡ sum_of (λ r. r.count) rs)
  unfolding compute_token_trend trend_of token_point
  compute_token_trend-sum =
      let input : reduce (λ d. d.input_tokens) 0 points ≡ sum_of (λ r. r.prompt_tokens) rs =
        reduce-zero (λ d. d.input_tokens) points
        ∙ points-sum (λ r. r.prompt_tokens) (λ d. d.input_tokens)
            (λ b. reduce-zero (λ r. r.prompt_tokens) b.records) in
      let output : reduce (λ d. d.output_tokens) 0 points ≡ sum_of (λ r. r.completion_tokens) rs =
        reduce-zero (λ d. d.output_tokens) points
        ∙ points-sum (λ r. r.completion_tokens) (λ d. d.output_tokens)
            (λ b. reduce-zero (λ r. r.completion_tokens) b.records) in
      (
        input,
        output,
        omega (arith, input, output),
        sym (reduce-zero (λ d. d.input_tokens) points),
        sym (reduce-zero (λ d. d.output_tokens) points),
        points-sum (λ r. r.prompt_tokens + r.completion_tokens) (λ d. d.total_tokens)
              (λ b. omega (
                arith,
                reduce-zero (λ r. r.prompt_tokens) b.records,
                reduce-zero (λ r. r.completion_tokens) b.records,
                sum_of-add b.records,
              ))
            ∙ omega (arith, input, output, sum_of-add rs),
        points-sum (λ r. r.count) (λ d. d.requests) (λ b. reduce-zero (λ r. r.count) b.records),
      )

peak_of-le :
    (max : TokenDataPoint) (ds : List TokenDataPoint)
    → (max.total_tokens ≤ (peak_of max ds).total_tokens)
      × All (λ d. d.total_tokens ≤ (peak_of max ds).total_tokens) ds
unfolding peak_of
peak_of-le max [] = (omega arith, tt)
peak_of-le max (d ∷ ds) =
    let (up, rest) = peak_of-le (if ltb max.total_tokens d.total_tokens then d else max) ds in
    (ground arith, (ground arith, rest))

-- No point of the series has more tokens than the peak that is named.
pub compute_token_trend-peak :
    (c : Calendar) (rs : List Raw) (g : TimeGranularity)
    → All
        (λ d. d.total_tokens ≤ (compute_token_trend c rs g).peak_tokens)
        (compute_token_trend c rs g).series
unfolding compute_token_trend trend_of peak_day
compute_token_trend-peak c rs g = peak_day-le (map token_point (aggregate_by_time c rs g))
  where
    peak_day-le :
        (ds : List TokenDataPoint) → All (λ d. d.total_tokens ≤ (peak_day ds).total_tokens) ds
    peak_day-le [] = tt
    peak_day-le (d ∷ ds) = (peak_of-le d (d ∷ ds)).1
