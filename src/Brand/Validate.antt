-- ===== src/Brand/Validate.antt =====
-- `validateConfig` of frontend/T-010-brand-customization/src/brand/config-loader.ts.
pub mod Colors
pub mod Laws
use Prim.Native.Char.{Char, code}
use Prim.Native.String.{◌++◌ as ◌<>◌}
use lite_nova.Prelude.{
  ℕ, zero, suc, Bool, true, false, ◌&&◌, ◌||◌, String, List, [], ◌∷◌, ◌++◌, Option, none, some,
  str_eq, ◌==◌, leb, not, if◌then◌else◌,
}
use lite_nova.Brand.Merge.{
  Value, missing, null, flag, number, text, array, object, Items, nil, cons, Fields, end, field,
  get,
}

pub record ConfigValidationError : Type 0 where
  pub path : String
  pub message : String

abbrev pub is_hex_digit : Char → Bool
is_hex_digit c =
    leb 48 (code c) && leb (code c) 57
    || (leb 97 (code c) && leb (code c) 102 || leb 65 (code c) && leb (code c) 70)

-- `n` hexadecimal digits
unfoldable pub is_hex : ℕ → String → Bool
is_hex zero String.[] = true
is_hex zero (String.◌∷◌ c s) = false
is_hex (suc n) String.[] = false
is_hex (suc n) (String.◌∷◌ c s) = is_hex_digit c && is_hex n s

-- `hexRegex.test(val)`
unfoldable pub is_hex_color : String → Bool
unfolding is_hex
is_hex_color String.[] = false
is_hex_color (String.◌∷◌ c s) = code c == 35 && (is_hex 3 s || is_hex 6 s)

-- The fields of an array are its positions.
unfoldable pub fields_of_items : (number_text : ℕ → String) → ℕ → Items → Fields
fields_of_items number_text i nil = end
fields_of_items number_text i (cons v items) =
    field (number_text i) v (fields_of_items number_text (suc i) items)

-- `v && typeof v === 'object'`
abbrev pub is_object : Value → Bool
is_object (object fields) = true
is_object (array items) = true
is_object _ = false

-- `v.key` of an object; an array has no field that the check reads.
unfoldable pub member : String → Value → Value
member key (object fields) = get key fields
member key _ = missing

-- A text that is not empty.
unfoldable pub is_name : Value → Bool
is_name (text s) = not (str_eq s "")
is_name _ = false

-- The errors of a required name.
unfoldable pub check_name : (path message : String) → Value → List ConfigValidationError
unfolding is_name
check_name path message v = if is_name v then [] else record { path = path; message = message } ∷ []

-- The loop over `Object.entries(colors)`.
unfoldable pub check_colors : Fields → List ConfigValidationError
unfolding is_hex_color
check_colors end = []
check_colors (field key (text val) rest) =
    let errors = check_colors rest in
    if is_hex_color val
    then errors
    else record {
      path = "color.colors." <> key;
      message = "Invalid hex color: \"" <> (val <> "\"");
    }
      ∷ errors
check_colors (field key _ rest) = check_colors rest

-- `Object.entries(colors)`
unfoldable pub entries_of : (number_text : ℕ → String) → Value → Fields
unfolding fields_of_items
entries_of number_text (object fields) = fields
entries_of number_text (array items) = fields_of_items number_text 0 items
entries_of number_text _ = end

-- A part is checked where it is an object.
unfoldable pub check_part :
    (Value → List ConfigValidationError) → Value → List ConfigValidationError
check_part check v = if is_object v then check v else []

-- The errors of the parts of a configuration.
unfoldable pub check_config : (number_text : ℕ → String) → Value → List ConfigValidationError
unfolding check_part check_name check_colors entries_of member
check_config number_text c =
    check_part
      (λ meta. check_name "meta.id" "meta.id is required and must be a string" (member "id" meta))
      (member "meta" c)
    ++ (check_part
          (λ color.
            check_part (λ colors. check_colors (entries_of number_text colors))
              (member "colors" color))
          (member "color" c)
        ++ check_part
            (λ text.
              check_name "text.brandName" "text.brandName is required and must be a string"
                (member "brandName" text))
            (member "text" c))

-- `validateConfig`
unfoldable pub validate_config : (number_text : ℕ → String) → Value → List ConfigValidationError
unfolding check_config
validate_config number_text v =
    if is_object v
    then check_config number_text v
    else record { path = ""; message = "Config must be an object" } ∷ []
