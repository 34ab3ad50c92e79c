-- ===== src/Brand/Validate/Colors.antt =====
-- Which texts are colours.
use Prim.Native.Char.{code}
use lite_nova.Prelude.{
  ℕ, zero, suc, ◌≡◌, ◌↔◌, ◌⊎◌, refl, true, false, Bool, String, arith, ◌==◌, ◌||◌, ◌&&◌, leb,
}
use lite_nova.Brand.Validate.{is_hex, is_hex_color}

-- Some character of a text has a code.
abbrev pub occurs : ℕ → String → Bool
occurs n String.[] = false
occurs n (String.◌∷◌ c s) = code c == n || occurs n s

-- Every character of a text is among those of another.
abbrev pub consists_of : String → String → Bool
consists_of digits String.[] = true
consists_of digits (String.◌∷◌ c s) = occurs (code c) digits && consists_of digits s

-- The number of characters.
abbrev pub size : String → ℕ
size String.[] = 0
size (String.◌∷◌ c s) = suc (size s)

abbrev pub hex_digits : String
hex_digits = "0123456789abcdefABCDEF"

-- # and three or six hexadecimal digits.
abbrev pub IsColor : String → Type 0
IsColor String.[] = ⊥
IsColor (String.◌∷◌ c s) =
    (code c ≡ 35) × (consists_of hex_digits s ≡ true) × ((size s ≡ 3) ⊎ (size s ≡ 6))

digit_eq :
    (n : ℕ)
    → (leb 48 n && leb n 57 || (leb 97 n && leb n 102 || leb 65 n && leb n 70))
      ≡ occurs n hex_digits
digit_eq n = ground arith

digit_step :
    (a b x y : Bool) (m n : ℕ)
    → a ≡ b
    → (x ≡ true) ↔ (y ≡ true) × (m ≡ n)
    → ((a && x) ≡ true) ↔ ((b && y) ≡ true) × (suc m ≡ suc n)
digit_step a b x y m n e iff = ground (arith, iff)

is_hex_iff :
    (n : ℕ) (s : String) → (is_hex n s ≡ true) ↔ (consists_of hex_digits s ≡ true) × (size s ≡ n)
unfolding is_hex
is_hex_iff zero String.[] = (λ h. (refl, refl), λ h. refl)
is_hex_iff zero (String.◌∷◌ c s) = ground arith
is_hex_iff (suc n) String.[] = ground arith
is_hex_iff (suc n) (String.◌∷◌ c s) =
    digit_step _ _ _ _ (size s) n (digit_eq (code c)) (is_hex_iff n s)

color_step :
    (k : ℕ) (x y z : Bool) (m : ℕ)
    → (x ≡ true) ↔ (z ≡ true) × (m ≡ 3)
    → (y ≡ true) ↔ (z ≡ true) × (m ≡ 6)
    → (((k == 35) && (x || y)) ≡ true) ↔ (k ≡ 35) × (z ≡ true) × ((m ≡ 3) ⊎ (m ≡ 6))
color_step k x y z m three six = ground (arith, three, six)

pub is_hex_color_iff : (s : String) → (is_hex_color s ≡ true) ↔ IsColor s
unfolding is_hex_color
is_hex_color_iff String.[] = ground arith
is_hex_color_iff (String.◌∷◌ c s) =
    color_step (code c) _ _ _ (size s) (is_hex_iff 3 s) (is_hex_iff 6 s)
