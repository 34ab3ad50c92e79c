-- ===== src/Grouping/Counts.antt =====
-- The grouping loop makes exactly one entry for the key of each row.
use lite_nova.Prelude.{
  ℕ, ◌≡◌, refl, ap, ◌∙◌, String, List, [], ◌∷◌, Option, none, some, arith, str_eq, eq_iff,
  if◌then◌else◌, Bool-cases, inl, inr, All, All-map,
}
use lite_nova.Sums.{sum_of}
use lite_nova.Grouping.{tally, group}
use lite_nova.Grouping.Laws.{
  lookup, IsMap, of_key, extend, lookup-tally_self, lookup-group, group-IsMap,
}

-- How often a key occurs among the entries.
abbrev pub entry_count : {V : Type 0} → String → List (String × V) → ℕ
entry_count k entries = sum_of (λ e. if str_eq e.0 k then 1 else 0) entries

entry_count-none :
    {V : Type 0} (k : String) (entries : List (String × V))
    → lookup k entries ≡ none
    → entry_count k entries ≡ 0
entry_count-none k [] h = refl
entry_count-none k ((j, v) ∷ entries) h = elim (Bool-cases (str_eq j k)) [
  | inl e ↦ cc (rw e at h)
  | inr e ↦ rw e (omega (arith, entry_count-none k entries (rw e at h)))
]

entry_count-some :
    {V : Type 0} (k : String) (entries : List (String × V)) {v : V}
    → IsMap entries
    → lookup k entries ≡ some v
    → entry_count k entries ≡ 1
entry_count-some k [] m h = cc
entry_count-some k ((j, v) ∷ entries) (absent, m) h = elim (Bool-cases (str_eq j k)) [
  | inl e ↦
      let here : lookup k entries ≡ none = rw (← (eq_iff j k).0 e) absent in
      rw e (omega (arith, entry_count-none k entries here))
  | inr e ↦ rw e (omega (arith, entry_count-some k entries m (rw e at h)))
]

module _ {R V : Type 0} (key : R → String) (first : R → V) (more : R → V → V) where
  extend-some : (v : V) (rs : List R) → (w : V) × (extend key first more (some v) rs ≡ some w)
  extend-some v [] = (v, refl)
  extend-some v (r ∷ rs) = extend-some (more r v) rs

  lookup-rest :
      (k : String) (rs : List R) (entries : List (String × V)) {v : V}
      → lookup k entries ≡ some v
      → (w : V) × (lookup k (group key first more rs entries) ≡ some w)
  lookup-rest k rs entries {v} h =
      let (w, e) = extend-some v (of_key key k rs) in
      (
        w,
        lookup-group key first more rs k entries
            ∙ ap (λ o. extend key first more o (of_key key k rs)) h
            ∙ e,
      )

  extend-one : (o : Option V) (r : R) → (w : V) × (extend key first more o (r ∷ []) ≡ some w)
  extend-one none r = (first r, refl)
  extend-one (some v) r = (more r v, refl)

  group-found :
      (rs : List R) (entries : List (String × V))
      → All (λ r. (w : V) × (lookup (key r) (group key first more rs entries) ≡ some w)) rs
  unfolding group
  group-found [] entries = tt
  group-found (r ∷ rs) entries =
      let (v, e) = extend-one (lookup (key r) entries) r in
      (
        lookup-rest (key r) rs (tally key first more r entries)
            (lookup-tally_self key first more r entries ∙ e),
        group-found rs (tally key first more r entries),
      )

  -- The key of each row has exactly one entry.
  pub group-entry_count :
      (rs : List R) → All (λ r. entry_count (key r) (group key first more rs []) ≡ 1) rs
  group-entry_count rs =
      All-map
        (λ (r : R) (h : (w : V) × (lookup (key r) (group key first more rs []) ≡ some w)).
          entry_count-some (key r) (group key first more rs [])
            (group-IsMap key first more rs [] tt) h.1)
        rs (group-found rs [])
