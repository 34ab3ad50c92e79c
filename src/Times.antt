-- ===== src/Times.antt =====
-- `timestamp2string` (web-src/web/src/helpers/utils.js), which writes a time of the local calendar.
pub mod Laws
use Prim.Native.String.{◌++◌}
use lite_nova.Prelude.{ℕ, ◌+◌, Bool, true, false, String, Option, none, some, if◌then◌else◌}

-- The parts of a `Date` in the local calendar; `month` counts from 0, as `getMonth` does.
pub record LocalTime : Type 0 where
  pub year : ℕ
  pub month : ℕ
  pub day : ℕ
  pub hour : ℕ
  pub minute : ℕ
  pub second : ℕ

-- What is read of the platform: the local calendar at a time in milliseconds, which is `none` for
-- an invalid date, and the text of a number.
pub record LocalCalendar : Type 0 where
  pub local_time : ℕ → Option LocalTime
  pub number_text : ℕ → String

-- `s.length === 1`
abbrev pub is_single : String → Bool
is_single (String.◌∷◌ c String.[]) = true
is_single _ = false

-- `if (s.length === 1) s = '0' + s`
unfoldable pub pad : String → String
pad s = if is_single s then "0" ++ s else s

-- `timestamp2string`; the timestamp is a number of seconds with a fraction, and counted in
-- milliseconds here. The parts of an invalid date are `NaN`.
unfoldable pub timestamp2string : LocalCalendar → ℕ → String
unfolding pad
timestamp2string c timestamp = elim (c.local_time timestamp) [
  | none ↦ "NaN-NaN-NaN NaN:NaN:NaN"
  | some date ↦
      c.number_text date.year
      ++ ("-"
          ++ (pad (c.number_text (date.month + 1))
              ++ ("-"
                  ++ (pad (c.number_text date.day)
                      ++ (" "
                          ++ (pad (c.number_text date.hour)
                              ++ (":"
                                  ++ (pad (c.number_text date.minute)
                                      ++ (":" ++ pad (c.number_text date.second))))))))))
]
