-- ===== src/Brand/Validate/Laws.antt =====
-- When a configuration is accepted.
use lite_nova.Prelude.{
  ℕ, suc, ◌≡◌, ◌≢◌, ◌↔◌, inl, inr, refl, true, false, Bool, String, List, [], ◌∷◌, ◌++◌, arith,
  str_eq, eq_iff, if◌then◌else◌, Bool-cases, sym, ap, ◌∙◌,
}
use lite_nova.Brand.Merge.{
  Value, missing, null, flag, number, text, array, object, Items, nil, cons, Fields, end, field,
  get,
}
use lite_nova.Brand.Validate.{
  ConfigValidationError, is_hex_color, fields_of_items, is_name, member, entries_of, check_name,
  check_colors, check_part, check_config, validate_config,
}
use lite_nova.Brand.Validate.Colors.{IsColor, is_hex_color_iff}

-- A part, where it is an object, has a field that is a text and not empty; no array has one.
abbrev pub HasName : String → Value → Type 0
HasName name (object part) = (s : String) × (get name part ≡ text s) × (s ≢ "")
HasName name (array items) = ⊥
HasName name _ = Unit

-- Every text among the fields is a colour, and every text of an array.
abbrev pub AreColors : Fields → Type 0
AreColors end = Unit
AreColors (field key (text val) rest) = IsColor val × AreColors rest
AreColors (field key _ rest) = AreColors rest

abbrev pub ItemsAreColors : Items → Type 0
ItemsAreColors nil = Unit
ItemsAreColors (cons (text val) rest) = IsColor val × ItemsAreColors rest
ItemsAreColors (cons _ rest) = ItemsAreColors rest

abbrev pub Colored : Value → Type 0
Colored (object fields) = AreColors fields
Colored (array items) = ItemsAreColors items
Colored _ = Unit

-- The colours of a part, where it is an object.
abbrev pub HasColors : Value → Type 0
HasColors (object part) = Colored (get "colors" part)
HasColors _ = Unit

check_text_iff :
    (e : ConfigValidationError) (b : Bool) (rest : List ConfigValidationError) {P Q : Type 0}
    → (b ≡ true) ↔ P
    → (rest ≡ []) ↔ Q
    → ((if b then rest else e ∷ rest) ≡ []) ↔ P × Q
check_text_iff e true rest p q = (λ h. (p.0 refl, q.0 h), λ h. q.1 h.1)
check_text_iff e false rest p q = (λ h. cc, λ h. cc (p.1 h.0))

check_colors_iff : (fields : Fields) → (check_colors fields ≡ []) ↔ AreColors fields
unfolding check_colors
check_colors_iff end = ground arith
check_colors_iff (field key (text val) rest) =
    check_text_iff _ (is_hex_color val) _ (is_hex_color_iff val) (check_colors_iff rest)
check_colors_iff (field key missing rest) = check_colors_iff rest
check_colors_iff (field key null rest) = check_colors_iff rest
check_colors_iff (field key (flag b) rest) = check_colors_iff rest
check_colors_iff (field key (number n) rest) = check_colors_iff rest
check_colors_iff (field key (array xs) rest) = check_colors_iff rest
check_colors_iff (field key (object fs) rest) = check_colors_iff rest

append-nil_iff :
    (xs ys : List ConfigValidationError) {P Q : Type 0}
    → (xs ≡ []) ↔ P
    → (ys ≡ []) ↔ Q
    → (xs ++ ys ≡ []) ↔ P × Q
append-nil_iff [] ys p q = (λ h. (p.0 refl, q.0 h), λ h. q.1 h.1)
append-nil_iff (x ∷ xs) ys p q = (λ h. cc, λ h. cc (p.1 h.0))

is_name_iff :
    (path message : String) (v : Value)
    → (check_name path message v ≡ []) ↔ ((s : String) × (v ≡ text s) × (s ≢ ""))
unfolding check_name is_name
is_name_iff path message (text s) = elim (Bool-cases (str_eq s "")) [
  | inl e ↦ rw e (λ h. cc, λ h. absurd (h.2 (trans_text s h.0 h.1 ((eq_iff s "").0 e))))
  | inr e ↦ rw e (λ h. (s, refl, λ q. cc (e, (eq_iff s "").1 q)), λ h. refl)
]
  where
    text_of : Value → String
    text_of (text s) = s
    text_of _ = ""

    trans_text : (s t : String) → text s ≡ text t → s ≡ "" → t ≡ ""
    trans_text s t e h = sym (ap text_of e) ∙ h
is_name_iff path message missing = (λ h. cc, λ h. cc (h.1))
is_name_iff path message null = (λ h. cc, λ h. cc (h.1))
is_name_iff path message (flag b) = (λ h. cc, λ h. cc (h.1))
is_name_iff path message (number n) = (λ h. cc, λ h. cc (h.1))
is_name_iff path message (array xs) = (λ h. cc, λ h. cc (h.1))
is_name_iff path message (object fs) = (λ h. cc, λ h. cc (h.1))

unnamed : ¬ ((s : String) × (missing ≡ text s) × (s ≢ ""))
unnamed (s, e, n) = cc

check_named_iff :
    (path message name : String) (v : Value)
    → (check_part (λ part. check_name path message (member name part)) v ≡ []) ↔ HasName name v
unfolding check_part member
check_named_iff path message name (object part) = is_name_iff path message (get name part)
check_named_iff path message name (array items) =
    (λ h. unnamed ((is_name_iff path message missing).0 h), λ h. absurd h)
check_named_iff path message name missing = (λ h. tt, λ h. refl)
check_named_iff path message name null = (λ h. tt, λ h. refl)
check_named_iff path message name (flag b) = (λ h. tt, λ h. refl)
check_named_iff path message name (number n) = (λ h. tt, λ h. refl)
check_named_iff path message name (text s) = (λ h. tt, λ h. refl)

module _ (number_text : ℕ → String) where
  check_items_iff :
      (i : ℕ) (items : Items)
      → (check_colors (fields_of_items number_text i items) ≡ []) ↔ ItemsAreColors items
  unfolding fields_of_items check_colors
  check_items_iff i nil = ground arith
  check_items_iff i (cons (text val) rest) =
      check_text_iff _ (is_hex_color val) _ (is_hex_color_iff val) (check_items_iff (suc i) rest)
  check_items_iff i (cons missing rest) = check_items_iff (suc i) rest
  check_items_iff i (cons null rest) = check_items_iff (suc i) rest
  check_items_iff i (cons (flag b) rest) = check_items_iff (suc i) rest
  check_items_iff i (cons (number n) rest) = check_items_iff (suc i) rest
  check_items_iff i (cons (array xs) rest) = check_items_iff (suc i) rest
  check_items_iff i (cons (object fs) rest) = check_items_iff (suc i) rest

  check-Colored_iff :
      (v : Value)
      → (check_part (λ colors. check_colors (entries_of number_text colors)) v ≡ []) ↔ Colored v
  unfolding check_part entries_of
  check-Colored_iff (object fields) = check_colors_iff fields
  check-Colored_iff (array items) = check_items_iff 0 items
  check-Colored_iff missing = (λ h. tt, λ h. refl)
  check-Colored_iff null = (λ h. tt, λ h. refl)
  check-Colored_iff (flag b) = (λ h. tt, λ h. refl)
  check-Colored_iff (number n) = (λ h. tt, λ h. refl)
  check-Colored_iff (text s) = (λ h. tt, λ h. refl)

  check_color_iff :
      (v : Value)
      → (check_part
            (λ color.
              check_part
                (λ colors. check_colors (entries_of number_text colors))
                (member "colors" color))
            v
          ≡ [])
        ↔ HasColors v
  unfolding check_part member
  check_color_iff (object part) = unfold check_part in check-Colored_iff (get "colors" part)
  check_color_iff (array items) = (λ h. tt, λ h. refl)
  check_color_iff missing = (λ h. tt, λ h. refl)
  check_color_iff null = (λ h. tt, λ h. refl)
  check_color_iff (flag b) = (λ h. tt, λ h. refl)
  check_color_iff (number n) = (λ h. tt, λ h. refl)
  check_color_iff (text s) = (λ h. tt, λ h. refl)

  -- A configuration is accepted without an error exactly if its meta part, where it is an object,
  -- has an id that is a text and not empty, its text part a brandName of that kind, and each text
  -- among its colours is # with three or six characters, each of them a hexadecimal digit.
  pub validate_config_iff :
      (c : Fields)
      → (validate_config number_text (object c) ≡ [])
        ↔ HasName "id" (get "meta" c)
          × HasColors (get "color" c)
          × HasName "brandName" (get "text" c)
  unfolding validate_config check_config member
  validate_config_iff c =
      let (there, back) = append-nil_iff _ _ (check_named_iff _ _ "id" (get "meta" c)) (
        append-nil_iff _ _ (check_color_iff (get "color" c))
          (check_named_iff _ _ "brandName" (get "text" c))) in
      (
        λ h. let (id, rest) = there h in (id, rest.0, rest.1),
        λ h. let (id, color, name) = h in back (id, (color, name)),
      )
