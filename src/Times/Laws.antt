-- ===== src/Times/Laws.antt =====
-- The text that `timestamp2string` writes, by the numbers of its fields.
use Prim.Native.String.{◌++◌}
use lite_nova.Prelude.{
  ℕ, ◌+◌, ◌*◌, ◌/◌, ◌≡◌, refl, ap, ◌∙◌, String, Option, none, some, ltb, if◌then◌else◌,
}
use lite_nova.Times.{LocalTime, LocalCalendar, is_single, pad, timestamp2string}

-- The texts of the numbers below 10, and of no others, have one character.
abbrev pub IsDecimal : (ℕ → String) → Type 0
IsDecimal number_text = (n : ℕ) → is_single (number_text n) ≡ ltb n 10

-- A number in two digits or more.
abbrev pub two_digits : (ℕ → String) → ℕ → String
two_digits number_text n = if ltb n 10 then "0" ++ number_text n else number_text n

-- The form YYYY-MM-DD hh:mm:ss.
abbrev pub date_text : (ℕ → String) → LocalTime → String
date_text number_text x =
    number_text x.year
    ++ ("-"
        ++ (two_digits number_text (x.month + 1)
            ++ ("-"
                ++ (two_digits number_text x.day
                    ++ (" "
                        ++ (two_digits number_text x.hour
                            ++ (":"
                                ++ (two_digits number_text x.minute
                                    ++ (":" ++ two_digits number_text x.second)))))))))

-- The calendar knows a time, and the text of it, in whole seconds, is read as that time.
abbrev pub ReadsBack : LocalCalendar → (date_parse : String → Option ℕ) → Option ℕ → Type 0
ReadsBack c date_parse none = Unit
ReadsBack c date_parse (some time) =
    (x : LocalTime) × (c.local_time time ≡ some x)
    × (date_parse (date_text c.number_text x) ≡ some (time / 1000 * 1000))

pad-two_digits :
    (number_text : ℕ → String) (n : ℕ)
    → IsDecimal number_text
    → pad (number_text n) ≡ two_digits number_text n
unfolding pad
pad-two_digits number_text n decimal = rw (decimal n) refl

-- The text of a time that the calendar knows.
timestamp2string-date_text :
    (c : LocalCalendar) (time : ℕ) (x : LocalTime)
    → IsDecimal c.number_text
    → c.local_time time ≡ some x
    → timestamp2string c time ≡ date_text c.number_text x
unfolding timestamp2string
timestamp2string-date_text c time x decimal e =
    rw
      (
        e,
        timestamp2string,
        pad-two_digits c.number_text (x.month + 1) decimal,
        pad-two_digits c.number_text x.day decimal,
        pad-two_digits c.number_text x.hour decimal,
        pad-two_digits c.number_text x.minute decimal,
        pad-two_digits c.number_text x.second decimal,
      )
      refl

pub date_parse-timestamp2string :
    (c : LocalCalendar) (date_parse : String → Option ℕ) (time : ℕ)
    → IsDecimal c.number_text
    → ReadsBack c date_parse (some time)
    → date_parse (timestamp2string c time) ≡ some (time / 1000 * 1000)
date_parse-timestamp2string c date_parse time decimal (x, e, back) =
    ap date_parse (timestamp2string-date_text c time x decimal e) ∙ back
