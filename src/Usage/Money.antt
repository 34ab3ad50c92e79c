-- ===== src/Usage/Money.antt =====
-- The arithmetic of the transformation. Amounts are exact fractions that are rounded where the
-- code rounds: the rounding of binary floating point itself is not modelled.
use lite_nova.Prelude.{ℕ, ◌+◌, ◌-◌, ◌*◌, ◌/◌, leb, ltb, if◌then◌else◌}
use lite_nova.Prelude.Int.{ℤ, pos, negsuc}

-- `rate`: dollars for a unit of quota, as a fraction.
pub record Rate : Type 0 where
  pub num : ℕ
  pub den : ℕ

abbrev pub default_quota_to_usd_rate : Rate
default_quota_to_usd_rate = record { num = 1; den = 500_000 }

-- `Math.round(n / d)` of a number that is not negative: a half is rounded up.
unfoldable pub round_ratio : ℕ → ℕ → ℕ
round_ratio n d = (2 * n + d) / (2 * d)

-- `-n`
abbrev pub minus : ℕ → ℤ
minus n = if ltb 0 n then negsuc (n - 1) else pos 0

-- `Math.round((p - n) / d)`: a half is rounded up, towards zero for a negative number.
unfoldable pub round_difference : (p n d : ℕ) → ℤ
unfolding round_ratio
round_difference p n d =
    if leb n p then pos (round_ratio (p - n) d) else minus ((2 * (n - p) + d - 1) / (2 * d))

-- `Math.round(quotaToUsd(quota, rate) * 100) / 100`, in cents
unfoldable pub cost_cents : Rate → ℕ → ℕ
unfolding round_ratio
cost_cents rate quota = round_ratio (quota * rate.num * 100) rate.den
