-- ===== src/Usage/Weeks.antt =====
-- The weeks of `timestampToDateKey` begin on Monday.
use lite_nova.Prelude.{
  ℕ, ◌+◌, ◌-◌, ◌*◌, ◌/◌, ◌≡◌, ◌≤◌, refl, ◌∙◌, sym, ap, arith, leb, if◌then◌else◌,
}
use lite_nova.Prelude.Int.{ℤ, pos, negsuc, pos_part, neg_part}
use lite_nova.Usage.{Calendar, weekly, day_number, utc_day, monday, day_key, timestamp_to_date_key}

-- The first day of the week with a number; week 0 began on 1969-12-29.
abbrev pub week_start : ℕ → ℤ
week_start w = if leb 3 (7 * w) then pos (7 * w - 3) else negsuc (3 - 7 * w - 1)

-- The number of the week of a time: the day 1969-12-29 lies 3 days before day 0.
abbrev pub week_of : ℕ → ℕ
week_of t = (day_number t + 3) / 7

monday-eq-week_start : (t : ℕ) → monday t ≡ week_start (week_of t)
unfolding monday utc_day
monday-eq-week_start t = ground arith

-- Two times in one week, from Monday to Sunday, fall into one weekly bucket, which is named after
-- a Monday: the bucket's day lies at most 6 days before the day of the time, never behind it.
pub timestamp_to_date_key-weekly :
    (c : Calendar) (t u : ℕ)
    → week_of t ≡ week_of u
    → (timestamp_to_date_key c t weekly ≡ timestamp_to_date_key c u weekly)
      × (timestamp_to_date_key c t weekly ≡ day_key c (monday t))
      × (pos_part (monday t) ≤ day_number t + neg_part (monday t))
      × (day_number t + neg_part (monday t) ≤ pos_part (monday t) + 6)
unfolding timestamp_to_date_key
timestamp_to_date_key-weekly c t u e =
    let same : monday t ≡ monday u =
      monday-eq-week_start t ∙ ap week_start e ∙ sym (monday-eq-week_start u) in
    (
      ap (day_key c) same,
      refl,
      ground (arith, monday-eq-week_start t),
      ground (arith, monday-eq-week_start t),
    )
