-- ===== src/Sorting/Laws.antt =====
-- The stable sort returns an ordered rearrangement, and changes nothing in an ordered list.
use mathlib.Core.List.{Perm}
use mathlib.Core.List.Perm
use lite_nova.Prelude.{◌≡◌, refl, Bool, true, false, List, [], ◌∷◌, All}
use lite_nova.Prelude.{Bool-cases, inl, inr}
use lite_nova.Sorting.{insert_sorted, sort}

-- The comparison is a consistent order: never positive both ways round, and "not positive" is
-- transitive.
pub record IsOrder {ℓ} {A : Type ℓ} (gt : A → A → Bool) : Type ℓ where
  pub asym : (a b : A) → gt a b ≡ true → gt b a ≡ false
  pub trans : (a b c : A) → gt a b ≡ false → gt b c ≡ false → gt a c ≡ false

module _ {ℓ} {A : Type ℓ} (gt : A → A → Bool) where
  -- No element is greater than a later one.
  abbrev pub IsSorted : List A → Type 0
  IsSorted [] = Unit
  IsSorted (x ∷ xs) = All (λ y. gt x y ≡ false) xs × IsSorted xs

  pub insert_sorted-perm : (x : A) (xs : List A) → Perm (insert_sorted gt x xs) (x ∷ xs)
  unfolding insert_sorted
  insert_sorted-perm x [] = Perm.rfl
  insert_sorted-perm x (y ∷ ys) = elim (Bool-cases (gt x y)) [
    | inl e ↦
        rw (e, insert_sorted)
          (Perm.trans (Perm.cons y (insert_sorted-perm x ys)) (Perm.swap x y ys))
    | inr e ↦ rw (e, insert_sorted) Perm.rfl
  ]

  -- The sort rearranges its input.
  pub sort-perm : (xs : List A) → Perm (sort gt xs) xs
  unfolding sort
  sort-perm [] = Perm.rfl
  sort-perm (x ∷ xs) = Perm.trans (insert_sorted-perm x (sort gt xs)) (Perm.cons x (sort-perm xs))

  pub All-insert_sorted {κ} :
      (P : A → Type κ) (x : A) (xs : List A) → P x → All P xs → All P (insert_sorted gt x xs)
  unfolding insert_sorted
  All-insert_sorted P x [] p h = (p, tt)
  All-insert_sorted P x (y ∷ ys) p (q, h) = elim (Bool-cases (gt x y)) [
    | inl e ↦ rw (e, insert_sorted) (q, All-insert_sorted P x ys p h)
    | inr e ↦ rw (e, insert_sorted) (p, (q, h))
  ]

  pub All-sort {κ} : (P : A → Type κ) (xs : List A) → All P xs → All P (sort gt xs)
  unfolding sort
  All-sort P [] h = tt
  All-sort P (x ∷ xs) (p, h) = All-insert_sorted P x (sort gt xs) p (All-sort P xs h)

  module _ (o : IsOrder gt) where
    below_trans :
        (x y : A) (ys : List A)
        → gt x y ≡ false
        → All (λ z. gt y z ≡ false) ys
        → All (λ z. gt x z ≡ false) ys
    below_trans x y [] e h = tt
    below_trans x y (z ∷ zs) e (q, h) = (o.trans x y z e q, below_trans x y zs e h)

    insert_sorted-IsSorted : (x : A) (xs : List A) → IsSorted xs → IsSorted (insert_sorted gt x xs)
    unfolding insert_sorted
    insert_sorted-IsSorted x [] h = (tt, tt)
    insert_sorted-IsSorted x (y ∷ ys) (q, h) = elim (Bool-cases (gt x y)) [
      | inl e ↦
          rw (e, insert_sorted)
            (
              All-insert_sorted (λ z. gt y z ≡ false) x ys (o.asym x y e) q,
              insert_sorted-IsSorted x ys h,
            )
      | inr e ↦ rw (e, insert_sorted) ((e, below_trans x y ys e q), (q, h))
    ]

    -- The result is ordered.
    pub sort-IsSorted : (xs : List A) → IsSorted (sort gt xs)
    unfolding sort
    sort-IsSorted [] = tt
    sort-IsSorted (x ∷ xs) = insert_sorted-IsSorted x (sort gt xs) (sort-IsSorted xs)

  insert_sorted_below :
      (x : A) (xs : List A) → All (λ y. gt x y ≡ false) xs → insert_sorted gt x xs ≡ x ∷ xs
  unfolding insert_sorted
  insert_sorted_below x [] h = refl
  insert_sorted_below x (y ∷ ys) (q, h) = rw (q, insert_sorted)

  -- An ordered list is left alone.
  pub sort_of_IsSorted : (xs : List A) → IsSorted xs → sort gt xs ≡ xs
  unfolding sort
  sort_of_IsSorted [] h = refl
  sort_of_IsSorted (x ∷ xs) (q, h) = rw (sort_of_IsSorted xs h) (insert_sorted_below x xs q)
