-- ===== src/Grouping/Laws.antt =====
-- What the grouping loop computes: one entry for each key, which holds what the rows with that key
-- give, taken in their order, and nothing else.
use lite_nova.Prelude.{
  ℕ, ◌+◌, ◌≡◌, refl, ap, ◌∙◌, Bool, false, String, List, [], ◌∷◌, Option, none, some, arith, keep,
  str_eq, eq_iff, if◌then◌else◌, Bool-cases, inl, inr, All, All-map, All-image, map,
}
use lite_nova.Sums.{sum_of}
use lite_nova.Sorting.{insert_sorted, sort}
use lite_nova.Sorting.Laws.{All-insert_sorted, All-sort}
use lite_nova.Grouping.{tally, group}

module _ {V : Type 0} where
  -- `map.get(k)`
  abbrev pub lookup : String → List (String × V) → Option V
  lookup k [] = none
  lookup k ((j, v) ∷ entries) = if str_eq j k then some v else lookup k entries

  -- No key twice.
  abbrev pub IsMap : List (String × V) → Type 0
  IsMap [] = Unit
  IsMap ((k, v) ∷ entries) = (lookup k entries ≡ none) × IsMap entries

-- The rows with a key, in their order.
abbrev pub of_key : {R : Type 0} → (R → String) → String → List R → List R
of_key key k rs = keep (λ r. str_eq (key r) k) rs

module _ {R V : Type 0} (key : R → String) (first : R → V) (more : R → V → V) where
  -- What rows make of an entry.
  abbrev pub extend : Option V → List R → Option V
  extend o [] = o
  extend none (r ∷ rs) = extend (some (first r)) rs
  extend (some v) (r ∷ rs) = extend (some (more r v)) rs

  pub lookup-tally_self :
      (r : R) (entries : List (String × V))
      → lookup (key r) (tally key first more r entries) ≡ extend (lookup (key r) entries) (r ∷ [])
  unfolding tally
  lookup-tally_self r [] = rw ((eq_iff (key r) (key r)).1 refl) refl
  lookup-tally_self r ((k, v) ∷ entries) = elim (Bool-cases (str_eq k (key r))) [
    | inl e ↦ rw (e, lookup, e) refl
    | inr e ↦ rw (e, lookup, e) (lookup-tally_self r entries)
  ]

  lookup-tally_ne :
      (r : R) (q : String) (entries : List (String × V))
      → str_eq (key r) q ≡ false
      → lookup q (tally key first more r entries) ≡ lookup q entries
  unfolding tally
  lookup-tally_ne r q [] n = rw n refl
  lookup-tally_ne r q ((k, v) ∷ entries) n = elim (Bool-cases (str_eq k (key r))) [
    | inl e ↦ rw ((eq_iff k (key r)).0 e, (eq_iff (key r) (key r)).1 refl, n) refl
    | inr e ↦
        rw (e, lookup) (ap (λ o. if str_eq k q then some v else o) (lookup-tally_ne r q entries n))
  ]

  lookup-tally :
      (r : R) (q : String) (entries : List (String × V))
      → lookup q (tally key first more r entries)
        ≡ (if str_eq (key r) q then extend (lookup q entries) (r ∷ []) else lookup q entries)
  lookup-tally r q entries = elim (Bool-cases (str_eq (key r) q)) [
    | inl e ↦
        let same : key r ≡ q = (eq_iff (key r) q).0 e in
        rw (e, ← same) (lookup-tally_self r entries)
    | inr e ↦ rw e (lookup-tally_ne r q entries e)
  ]

  extend-cons :
      (o : Option V) (r : R) (rs : List R) → extend (extend o (r ∷ [])) rs ≡ extend o (r ∷ rs)
  extend-cons none r rs = refl
  extend-cons (some v) r rs = refl

  -- An entry holds what the rows with its key make of it.
  pub lookup-group :
      (rs : List R) (q : String) (entries : List (String × V))
      → lookup q (group key first more rs entries) ≡ extend (lookup q entries) (of_key key q rs)
  unfolding group
  lookup-group [] q entries = refl
  lookup-group (r ∷ rs) q entries =
      let rest = lookup-group rs q (tally key first more r entries) in
      let head = lookup-tally r q entries in
      elim (Bool-cases (str_eq (key r) q)) [
        | inl e ↦
            rw (e, keep)
              (rest
                ∙ ap (λ o. extend o (of_key key q rs)) (rw e at head)
                ∙ extend-cons (lookup q entries) r (of_key key q rs))
        | inr e ↦ rw (e, keep) (rest ∙ ap (λ o. extend o (of_key key q rs)) (rw e at head))
      ]

  tally-IsMap :
      (r : R) (entries : List (String × V)) → IsMap entries → IsMap (tally key first more r entries)
  unfolding tally
  tally-IsMap r [] m = (refl, tt)
  tally-IsMap r ((k, v) ∷ entries) (absent, m) = elim (Bool-cases (str_eq k (key r))) [
    | inl e ↦ rw e (absent, m)
    | inr e ↦
        rw e (lookup-tally_ne r k entries (differ (key r) k e) ∙ absent, tally-IsMap r entries m)
  ]
    where
      differ : (a b : String) → str_eq b a ≡ false → str_eq a b ≡ false
      differ a b n = ground (arith, eq_iff a b, eq_iff b a)

  pub group-IsMap :
      (rs : List R) (entries : List (String × V))
      → IsMap entries
      → IsMap (group key first more rs entries)
  unfolding group
  group-IsMap [] entries m = m
  group-IsMap (r ∷ rs) entries m =
      group-IsMap rs (tally key first more r entries) (tally-IsMap r entries m)

  -- A measure that every row adds to is summed without loss.
  pub sum_of-group :
      (f : V → ℕ) (g : R → ℕ)
      → ((r : R) → f (first r) ≡ g r)
      → ((r : R) (v : V) → f (more r v) ≡ f v + g r)
      → (rs : List R) (entries : List (String × V))
      → sum_of (λ e. f e.1) (group key first more rs entries)
        ≡ sum_of (λ e. f e.1) entries + sum_of g rs
  unfolding group tally
  sum_of-group f g one add [] entries = omega arith
  sum_of-group f g one add (r ∷ rs) entries =
      omega
        (arith, sum_of-group f g one add rs (tally key first more r entries), sum_of-tally entries)
    where
      sum_of-tally :
          (entries : List (String × V))
          → sum_of (λ e. f e.1) (tally key first more r entries) ≡ sum_of (λ e. f e.1) entries + g r
      sum_of-tally [] = omega (arith, one r)
      sum_of-tally ((k, v) ∷ entries) = elim (Bool-cases (str_eq k (key r))) [
        | inl e ↦ rw e (omega (arith, add r v))
        | inr e ↦ rw e (omega (arith, sum_of-tally entries))
      ]

module _ {V : Type 0} where
  -- In a map every entry is the one that is looked up by its key.
  pub IsMap-entries :
      (entries : List (String × V))
      → IsMap entries
      → All (λ e. lookup e.0 entries ≡ some e.1) entries
  IsMap-entries [] m = tt
  IsMap-entries ((k, v) ∷ entries) (absent, m) = (
    rw ((eq_iff k k).1 refl) refl,
    All-map
        (λ (e : String × V) (found : lookup e.0 entries ≡ some e.1).
          behind k v entries absent e found)
        entries (IsMap-entries entries m),
  )
    where
      behind :
          (k : String) (v : V) (entries : List (String × V))
          → lookup k entries ≡ none
          → (e : String × V) → lookup e.0 entries ≡ some e.1
          → lookup e.0 ((k, v) ∷ entries) ≡ some e.1
      behind k v entries absent e found = elim (Bool-cases (str_eq k e.0)) [
        | inl q ↦
            let clash : lookup e.0 entries ≡ none = rw (← (eq_iff k e.0).0 q) absent in
            cc (clash, found)
        | inr q ↦ rw q found
      ]

  lookup-none :
      (k : String) (entries : List (String × V))
      → lookup k entries ≡ none
      → All (λ e. str_eq k e.0 ≡ false) entries
  lookup-none k [] h = tt
  lookup-none k ((j, v) ∷ entries) h = elim (Bool-cases (str_eq j k)) [
    | inl e ↦ cc (rw e at h)
    | inr e ↦ (differ j e, lookup-none k entries (rw e at h))
  ]
    where
      differ : (j : String) → str_eq j k ≡ false → str_eq k j ≡ false
      differ j n = ground (arith, eq_iff k j, eq_iff j k)

-- No two elements with one key.
abbrev pub IsApart : {A : Type 0} → (A → String) → List A → Type 0
IsApart f [] = Unit
IsApart f (x ∷ xs) = All (λ y. str_eq (f x) (f y) ≡ false) xs × IsApart f xs

pub IsMap-IsApart :
    {V : Type 0} (entries : List (String × V)) → IsMap entries → IsApart (λ e. e.0) entries
IsMap-IsApart [] m = tt
IsMap-IsApart ((k, v) ∷ entries) (absent, m) =
    (lookup-none k entries absent, IsMap-IsApart entries m)

pub IsApart-map :
    {A B : Type 0} (f : B → String) (h : A → B) (xs : List A)
    → IsApart (λ x. f (h x)) xs
    → IsApart f (map h xs)
IsApart-map f h [] a = tt
IsApart-map f h (x ∷ xs) (p, a) =
    (All-image (λ y. str_eq (f (h x)) (f y) ≡ false) h xs p, IsApart-map f h xs a)

module _ {A : Type 0} (f : A → String) (gt : A → A → Bool) where
  IsApart-insert_sorted :
      (x : A) (xs : List A)
      → All (λ y. str_eq (f x) (f y) ≡ false) xs
      → IsApart f xs
      → IsApart f (insert_sorted gt x xs)
  unfolding insert_sorted
  IsApart-insert_sorted x [] p a = (tt, tt)
  IsApart-insert_sorted x (y ∷ ys) (n, p) (q, a) = elim (Bool-cases (gt x y)) [
    | inl e ↦
        rw (e, insert_sorted)
          (
            All-insert_sorted gt (λ z. str_eq (f y) (f z) ≡ false) x ys
                (ground (arith, eq_iff (f x) (f y), eq_iff (f y) (f x))) q,
            IsApart-insert_sorted x ys p a,
          )
    | inr e ↦ rw (e, insert_sorted) ((n, p), (q, a))
  ]

  pub IsApart-sort : (xs : List A) → IsApart f xs → IsApart f (sort gt xs)
  unfolding sort
  IsApart-sort [] a = tt
  IsApart-sort (x ∷ xs) (p, a) =
      IsApart-insert_sorted x (sort gt xs) (All-sort gt (λ y. str_eq (f x) (f y) ≡ false) xs p)
        (IsApart-sort xs a)
