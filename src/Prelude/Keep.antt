-- ===== src/Prelude/Keep.antt =====
-- What `filter` keeps.
use mathlib.Core.Path.{◌≡◌, refl, ap}
use mathlib.Core.Logic.{inl, inr}
use mathlib.Core.Bool.{Bool, false, ◌&&◌}
use mathlib.Core.List.{List, [], ◌∷◌, ◌++◌, map}
use lite_nova.Prelude.Tests.{Bool-cases}
use lite_nova.Prelude.Lists.{keep, All}

module _ {A : Type 0} where
  pub All-every : {P : A → Type 0} (xs : List A) → ((x : A) → P x) → All P xs
  All-every [] h = tt
  All-every (x ∷ xs) h = (h x, All-every xs h)

  pub All-keep : (P : A → Type 0) (p : A → Bool) (xs : List A) → All P xs → All P (keep p xs)
  All-keep P p [] h = tt
  All-keep P p (x ∷ xs) (q, h) = elim (Bool-cases (p x)) [
    | inl e ↦ rw (e, keep) (q, All-keep P p xs h)
    | inr e ↦ rw (e, keep) (All-keep P p xs h)
  ]

  pub keep-append : (p : A → Bool) (xs ys : List A) → keep p (xs ++ ys) ≡ keep p xs ++ keep p ys
  keep-append p [] ys = refl
  keep-append p (x ∷ xs) ys = elim (Bool-cases (p x)) [
    | inl e ↦ rw (e, keep) (ap (x ∷◌) (keep-append p xs ys))
    | inr e ↦ rw (e, keep) (keep-append p xs ys)
  ]

  pub keep-keep : (p q : A → Bool) (xs : List A) → keep p (keep q xs) ≡ keep (λ x. q x && p x) xs
  keep-keep p q [] = refl
  keep-keep p q (x ∷ xs) = elim (Bool-cases (q x)) [
    | inr e ↦ rw (e, keep) (keep-keep p q xs)
    | inl e ↦ elim (Bool-cases (p x)) [
      | inl e' ↦ rw (e, keep, e', keep) (ap (x ∷◌) (keep-keep p q xs))
      | inr e' ↦ rw (e, keep, e', keep) (keep-keep p q xs)
    ]
  ]

  pub keep-cong : (p q : A → Bool) (xs : List A) → All (λ x. p x ≡ q x) xs → keep p xs ≡ keep q xs
  keep-cong p q [] h = refl
  keep-cong p q (x ∷ xs) (e, h) = elim (Bool-cases (q x)) [
    | inl e' ↦ rw (e, e', keep) (ap (x ∷◌) (keep-cong p q xs h))
    | inr e' ↦ rw (e, e', keep) (keep-cong p q xs h)
  ]

  pub keep_none : (p : A → Bool) (xs : List A) → All (λ x. p x ≡ false) xs → keep p xs ≡ []
  keep_none p [] h = refl
  keep_none p (x ∷ xs) (e, h) = rw (e, keep) (keep_none p xs h)

pub map-keep :
    {A B : Type 0} (f : A → B) (p : B → Bool) (xs : List A)
    → map f (keep (λ x. p (f x)) xs) ≡ keep p (map f xs)
map-keep f p [] = refl
map-keep f p (x ∷ xs) = elim (Bool-cases (p (f x))) [
  | inl e ↦ rw (e, keep) (ap (f x ∷◌) (map-keep f p xs))
  | inr e ↦ rw (e, keep) (map-keep f p xs)
]

pub map-append :
    {A B : Type 0} (f : A → B) (xs ys : List A) → map f (xs ++ ys) ≡ map f xs ++ map f ys
map-append f [] ys = refl
map-append f (x ∷ xs) ys = ap (f x ∷◌) (map-append f xs ys)
