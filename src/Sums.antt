-- ===== src/Sums.antt =====
-- Sums of a field over a list, and what the operations on lists do to them.
use lite_nova.Prelude.{
  ℕ, ◌+◌, ◌≡◌, ◌≤◌, refl, ap, ◌∙◌, Bool, List, [], ◌∷◌, ◌++◌, arith, keep, map, Bool-cases, inl,
  inr,
}
use lite_nova.Sorting.{insert_sorted, sort}

abbrev pub sum_of : {A : Type 0} → (A → ℕ) → List A → ℕ
sum_of f [] = 0
sum_of f (x ∷ xs) = f x + sum_of f xs

module _ {A : Type 0} (f : A → ℕ) where
  pub sum_of-append : (xs ys : List A) → sum_of f (xs ++ ys) ≡ sum_of f xs + sum_of f ys
  sum_of-append [] ys = omega arith
  sum_of-append (x ∷ xs) ys = omega (arith, sum_of-append xs ys)

  sum_of-insert_sorted :
      (gt : A → A → Bool) (x : A) (xs : List A)
      → sum_of f (insert_sorted gt x xs) ≡ f x + sum_of f xs
  unfolding insert_sorted
  sum_of-insert_sorted gt x [] = refl
  sum_of-insert_sorted gt x (y ∷ ys) = elim (Bool-cases (gt x y)) [
    | inl e ↦ rw (e, insert_sorted) (omega (arith, sum_of-insert_sorted gt x ys))
    | inr e ↦ rw (e, insert_sorted) refl
  ]

  pub sum_of-sort : (gt : A → A → Bool) (xs : List A) → sum_of f (sort gt xs) ≡ sum_of f xs
  unfolding sort
  sum_of-sort gt [] = refl
  sum_of-sort gt (x ∷ xs) = sum_of-insert_sorted gt x (sort gt xs) ∙ ap (f x +◌) (sum_of-sort gt xs)

  pub sum_of-keep : (p : A → Bool) (xs : List A) → sum_of f (keep p xs) ≤ sum_of f xs
  sum_of-keep p [] = omega arith
  sum_of-keep p (x ∷ xs) = elim (Bool-cases (p x)) [
    | inl e ↦ rw (e, keep) (omega (arith, sum_of-keep p xs))
    | inr e ↦ rw (e, keep) (omega (arith, sum_of-keep p xs))
  ]

pub sum_of-cong :
    {A : Type 0} (f g : A → ℕ) (xs : List A) → ((x : A) → f x ≡ g x) → sum_of f xs ≡ sum_of g xs
sum_of-cong f g [] h = refl
sum_of-cong f g (x ∷ xs) h = omega (arith, h x, sum_of-cong f g xs h)

pub sum_of-map :
    {A B : Type 0} (f : B → ℕ) (h : A → B) (xs : List A)
    → sum_of f (map h xs) ≡ sum_of (λ x. f (h x)) xs
sum_of-map f h [] = refl
sum_of-map f h (x ∷ xs) = ap (f (h x) +◌) (sum_of-map f h xs)

pub sum_of-le :
    {A : Type 0} (f g : A → ℕ) (xs : List A) → ((x : A) → f x ≤ g x) → sum_of f xs ≤ sum_of g xs
sum_of-le f g [] h = omega arith
sum_of-le f g (x ∷ xs) h = omega (arith, h x, sum_of-le f g xs h)
