-- ===== src/Sorting/Columns.antt =====
-- What a column holds, and the comparison by which the tables sort a column
-- (`sortChannel`, `sortToken`, `sortUser` and `sortRedemption` under web-src/web/src/components).
-- How the language reads a text as a number, and how it collates texts, are parameters.
use lite_nova.Prelude.{Bool, false, String, Option, none, some}
use lite_nova.Prelude.Int.{ℤ, ltb_ℤ}

-- The functions of the language that the code calls on texts: `Number`, `parseInt`, `String` of a
-- number, `trim`, and whether `localeCompare` is positive. `none` is NaN.
pub record Js : Type 0 where
  pub to_number : String → Option ℤ
  pub parse_int : String → Option ℤ
  pub number_text : ℤ → String
  pub trim : String → String
  pub locale_greater : String → String → Bool

pub data Cell : Type 0 where
  num : ℤ → Cell
  str : String → Cell
  missing : Cell

module _ (js : Js) where
  -- the cell as a number
  unfoldable pub cell_number : Cell → Option ℤ
  cell_number (num z) = some z
  cell_number (str s) = js.to_number s
  cell_number missing = none

  -- `'' + cell`
  unfoldable pub cell_text : Cell → String
  cell_text (num z) = js.number_text z
  cell_text (str s) = s
  cell_text missing = "undefined"

  -- `a[key] - b[key] > 0`: never, where either is NaN
  unfoldable pub number_greater : ℤ → Option ℤ → Bool
  number_greater x none = false
  number_greater x (some y) = ltb_ℤ y x

  -- whether the comparison function of the sort is positive
  unfoldable pub cell_greater : Cell → Cell → Bool
  unfolding cell_number cell_text number_greater
  cell_greater a b = elim (cell_number a) [
    | some x ↦ number_greater x (cell_number b)
    | none ↦ js.locale_greater (cell_text a) (cell_text b)
  ]
