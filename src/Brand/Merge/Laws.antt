-- ===== src/Brand/Merge/Laws.antt =====
-- What a path reads in a deep merge: what the source says of it, or else what the target says, and
-- nothing where the source has a plain value on the way.
use lite_nova.Prelude.{
  ◌≡◌, refl, sym, ap, ◌∙◌, Bool, true, false, String, List, [], ◌∷◌, some, str_eq, eq_iff,
  if◌then◌else◌, Bool-cases, inl, inr, arith,
}
use lite_nova.Brand.Merge.{
  Value, missing, null, flag, number, text, array, object, Fields, end, field, is_missing, get, put,
  merge_value, merge_fields, deep_merge,
}

-- No field has this name.
abbrev Lacks : String → Fields → Type 0
Lacks name end = Unit
Lacks name (field n v fields) = (str_eq n name ≡ false) × Lacks name fields

-- No object in the value has two fields with one name.
abbrev mutual
  pub IsTree : Value → Type 0
  IsTree (object fields) = IsObject fields
  IsTree _ = Unit

  pub IsObject : Fields → Type 0
  IsObject end = Unit
  IsObject (field name v fields) = Lacks name fields × IsTree v × IsObject fields

-- The value of the source over that of the target.
abbrev pub over : Value → Value → Value
over old v = if is_missing v then old else merge_value old v

-- The value that a path of names leads to.
unfoldable pub at_path : List String → Value → Value
unfolding get
at_path [] v = v
at_path (name ∷ path) (object fields) = at_path path (get name fields)
at_path (name ∷ path) _ = missing

-- A value that is no object and not undefined stands on the way.
unfoldable pub is_blocked : List String → Value → Bool
unfolding get
is_blocked [] v = false
is_blocked (name ∷ path) missing = false
is_blocked (name ∷ path) (object fields) = is_blocked path (get name fields)
is_blocked (name ∷ path) _ = true

get_of_Lacks : (name : String) (fields : Fields) → Lacks name fields → get name fields ≡ missing
unfolding get
get_of_Lacks name end h = refl
get_of_Lacks name (field n v fields) (e, h) = rw e (get_of_Lacks name fields h)

IsTree-get : (name : String) (fields : Fields) → IsObject fields → IsTree (get name fields)
unfolding get
IsTree-get name end h = tt
IsTree-get name (field n v fields) (_, t, h) = elim (Bool-cases (str_eq n name)) [
  | inl e ↦ rw e t
  | inr e ↦ rw e (IsTree-get name fields h)
]

get-put :
    (q name : String) (f : Value → Value) (fields : Fields)
    → get q (put name f fields) ≡ (if str_eq name q then f (get q fields) else get q fields)
unfolding get put
get-put q name f end = refl
get-put q name f (field n v fields) =
    ground (arith, eq_iff name q, eq_iff n name, eq_iff n q, get-put q name f fields)

-- The target after one round of the loop.
get-next :
    (q name : String) (v : Value) (target : Fields)
    → get q (if is_missing v then target else put name (λ old. merge_value old v) target)
      ≡ (if str_eq name q then over (get q target) v else get q target)
get-next q name v target = elim (Bool-cases (is_missing v)) [
  | inl e ↦ rw e (elim (Bool-cases (str_eq name q)) [ inl e' ↦ rw e' refl | inr e' ↦ rw e' refl ])
  | inr e ↦ rw e (get-put q name (λ old. merge_value old v) target)
]

over-missing : (v : Value) → over missing v ≡ v
unfolding is_missing merge_value
over-missing missing = refl
over-missing null = refl
over-missing (flag b) = refl
over-missing (number n) = refl
over-missing (text s) = refl
over-missing (array xs) = refl
over-missing (object fs) = refl

-- A field of a merge.
pub get-merge_fields :
    (q : String) (target source : Fields)
    → IsObject source
    → get q (merge_fields target source) ≡ over (get q target) (get q source)
unfolding merge_fields get
get-merge_fields q target end h = unfold is_missing in refl
get-merge_fields q target (field name v source) (lacks, t, h) =
    let next : Fields =
      if is_missing v then target else put name (λ old. merge_value old v) target in
    get-merge_fields q next source h ∙ elim (Bool-cases (str_eq name q)) [
      | inl e ↦
          let same : name ≡ q = (eq_iff name q).0 e in
          rw (get-next q name v target, e, get_of_Lacks q source (rw same at lacks))
            (unfold is_missing in refl)
      | inr e ↦ rw (get-next q name v target, e) refl
    ]

at_path-missing : (path : List String) → at_path path missing ≡ missing
unfolding at_path
at_path-missing [] = refl
at_path-missing (name ∷ path) = refl

blocked_at_path :
    (path : List String) (v : Value) → is_blocked path v ≡ true → at_path path v ≡ missing
unfolding at_path is_blocked
blocked_at_path [] v h = cc
blocked_at_path (name ∷ path) missing h = refl
blocked_at_path (name ∷ path) null h = refl
blocked_at_path (name ∷ path) (flag b) h = refl
blocked_at_path (name ∷ path) (number n) h = refl
blocked_at_path (name ∷ path) (text s) h = refl
blocked_at_path (name ∷ path) (array xs) h = refl
blocked_at_path (name ∷ path) (object fields) h = blocked_at_path path (get name fields) h

-- What a path reads in a source over nothing.
at_path_alone :
    (path : List String) (v : Value)
    → at_path path v ≡ (if is_blocked path v then missing else over missing (at_path path v))
at_path_alone path v = elim (Bool-cases (is_blocked path v)) [
  | inl e ↦ rw e (blocked_at_path path v e)
  | inr e ↦ rw e (sym (over-missing (at_path path v)))
]

-- What a path reads in a merge.
at_path-over :
    (path : List String) (old v : Value)
    → IsTree v
    → at_path path (over old v)
      ≡ (if is_blocked path v then missing else over (at_path path old) (at_path path v))
unfolding at_path is_blocked is_missing merge_value
at_path-over [] old v h = refl
at_path-over (name ∷ path) old missing h = refl
at_path-over (name ∷ path) old null h = refl
at_path-over (name ∷ path) old (flag b) h = refl
at_path-over (name ∷ path) old (number n) h = refl
at_path-over (name ∷ path) old (text s) h = refl
at_path-over (name ∷ path) old (array xs) h = refl
at_path-over (name ∷ path) (object target) (object source) h =
    ap (at_path path) (get-merge_fields name target source h)
    ∙ at_path-over path (get name target) (get name source) (IsTree-get name source h)
at_path-over (name ∷ path) missing (object source) h = at_path_alone path (get name source)
at_path-over (name ∷ path) null (object source) h = at_path_alone path (get name source)
at_path-over (name ∷ path) (flag b) (object source) h = at_path_alone path (get name source)
at_path-over (name ∷ path) (number n) (object source) h = at_path_alone path (get name source)
at_path-over (name ∷ path) (text s) (object source) h = at_path_alone path (get name source)
at_path-over (name ∷ path) (array xs) (object source) h = at_path_alone path (get name source)

-- What a path reads in a deep merge: nothing where the source has a plain value on the way to it,
-- else the value of the source, merged into that of the target, or the value of the target where
-- the source has none. No object of the source has two fields with one name.
pub deep_merge-at_path :
    (path : List String) (target source : Fields)
    → IsObject source
    → at_path path (object (deep_merge target (some source))) ≡ (
        if is_blocked path (object source)
        then missing
        else over (at_path path (object target)) (at_path path (object source)))
unfolding deep_merge merge_value is_missing
deep_merge-at_path path target source h = at_path-over path (object target) (object source) h
