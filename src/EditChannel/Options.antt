-- ===== src/EditChannel/Options.antt =====
-- The options of the models, and the models that the user adds.
use lite_nova.Prelude.{
  ◌≡◌, ◌≢◌, ◌⊎◌, inl, inr, refl, sym, ap, ◌∙◌, true, false, ◌||◌, String, List, [], ◌∷◌, ◌++◌,
  arith, Bool-cases, str_eq, eq_iff, if◌then◌else◌, All, push, append_assoc, append-nil,
}
use lite_nova.Channels.{ModelOption, model_option}
use lite_nova.EditChannel.{Host, ChannelForm}
use lite_nova.EditChannel.Fields.{has_option, extend_options, includes, add_custom_model}

has_option-append :
    (m : String) (xs ys : List ModelOption)
    → has_option m xs ≡ true
    → has_option m (xs ++ ys) ≡ true
unfolding has_option
has_option-append m [] ys h = cc
has_option-append m (x ∷ xs) ys h = ground (arith, has_option-append m xs ys)

has_option-push :
    (m : String) (xs : List ModelOption) → has_option m (push xs (model_option m)) ≡ true
unfolding has_option
has_option-push m [] = ground (arith, eq_iff m m)
has_option-push m (x ∷ xs) = ground (arith, has_option-push m xs)

module _ (m : String) (options : List ModelOption) where
  has_extended :
      has_option m (if has_option m options then options else push options (model_option m)) ≡ true
  has_extended = elim (Bool-cases (has_option m options)) [
    | inl e ↦ rw e e
    | inr e ↦ rw e (has_option-push m options)
  ]

  extended_once :
      (first : List ModelOption) × ((if has_option m options
          then options
          else push options (model_option m))
        ≡ options ++ first)
  extended_once = elim (Bool-cases (has_option m options)) [
    | inl e ↦ ([], rw e (sym (append-nil options)))
    | inr e ↦ (model_option m ∷ [], rw e)
  ]

-- The options of the drop-down, extended by a list of models: every model has its option, and the
-- options that were there stay in front.
pub extend_options-has_option :
    (ms : List String) (options : List ModelOption)
    → All (λ m. has_option m (extend_options ms options) ≡ true) ms
      × ((added : List ModelOption) × (extend_options ms options ≡ options ++ added))
unfolding extend_options
extend_options-has_option [] options = (tt, ([], sym (append-nil options)))
extend_options-has_option (m ∷ ms) options =
    let options' = if has_option m options then options else push options (model_option m) in
    let (later, (added, e)) = extend_options-has_option ms options' in
    let (first, same) = extended_once m options in
    (
      (rw e (has_option-append m options' added (has_extended m options)), later),
      (first ++ added, e ∙ ap (λ l. l ++ added) same ∙ append_assoc options first added),
    )

-- No model twice.
abbrev pub IsUnique : List String → Type 0
IsUnique [] = Unit
IsUnique (x ∷ xs) = (includes xs x ≡ false) × IsUnique xs

includes-push :
    (xs : List String) (m y : String) → includes (push xs m) y ≡ (includes xs y || str_eq m y)
unfolding includes
includes-push [] m y = ground arith
includes-push (x ∷ xs) m y = ground (arith, includes-push xs m y)

IsUnique-push :
    (xs : List String) (m : String) → IsUnique xs → includes xs m ≡ false → IsUnique (push xs m)
unfolding includes
IsUnique-push [] m u n = (refl, tt)
IsUnique-push (x ∷ xs) m (q, u) n = (
  ground (arith, includes-push xs m x, eq_iff x m, eq_iff m x),
  IsUnique-push xs m u (ground (arith, eq_iff x m)),
)

-- Adding a custom model never doubles a model. A model whose text is not blank is among the
-- models afterwards, the field is empty if it was added, and the models before it stay.
pub add_custom_model-IsUnique :
    (h : Host) (s : ChannelForm)
    → IsUnique s.inputs.models
    → h.trim s.custom_model ≢ ""
    → IsUnique (add_custom_model h s).inputs.models
      × (includes (add_custom_model h s).inputs.models s.custom_model ≡ true)
      × ((add_custom_model h s ≡ s)
          ⊎ ((add_custom_model h s).inputs.models ≡ push s.inputs.models s.custom_model))
unfolding add_custom_model
add_custom_model-IsUnique h s u n = elim (Bool-cases (str_eq (h.trim s.custom_model) "")) [
  | inl e ↦ absurd (n ((eq_iff (h.trim s.custom_model) "").0 e))
  | inr e ↦ elim (Bool-cases (includes s.inputs.models s.custom_model)) [
    | inl i ↦ rw (e, i) (u, i, inl refl)
    | inr i ↦
        rw (e, i)
          (
            IsUnique-push s.inputs.models s.custom_model u i,
            includes-push s.inputs.models s.custom_model s.custom_model
                ∙ rw (i, (eq_iff s.custom_model s.custom_model).1 refl),
            inr refl,
          )
  ]
]
