-- ===== src/Sorting.antt =====
-- `Array.prototype.sort`, as the language defines it for a comparison that is a consistent order:
-- a stable sort. `gt a b` says that the comparison function is positive at `a` and `b`.
pub mod Laws
pub mod Columns
use lite_nova.Prelude.{Bool, true, false, List, [], ◌∷◌}

module _ {ℓ} {A : Type ℓ} (gt : A → A → Bool) where
  unfoldable pub insert_sorted : A → List A → List A
  insert_sorted x [] = x ∷ []
  insert_sorted x (y ∷ ys) = elim (gt x y) [ true ↦ y ∷ insert_sorted x ys | false ↦ x ∷ y ∷ ys ]

  unfoldable pub sort : List A → List A
  unfolding insert_sorted
  sort [] = []
  sort (x ∷ xs) = insert_sorted x (sort xs)
