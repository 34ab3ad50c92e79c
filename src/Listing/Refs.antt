-- ===== src/Listing/Refs.antt =====
-- Lists of references: bounded, without repetition, and what cutting and sorting keeps of that.
use lite_nova.Prelude.{
  ℕ, zero, suc, ◌+◌, ◌≤◌, ◌<◌, ◌≡◌, sym, ◌≢◌, Bool, List, [], ◌∷◌, ◌++◌, reverse, arith, take, drop,
  All, All-append, All-take, All-drop, All-map, Bool-cases, inl, inr,
}
use mathlib.Core.List.{reverse-cons}
use lite_nova.Sorting.{sort, insert_sorted}
use lite_nova.Sorting.Laws.{All-sort, All-insert_sorted}
use lite_nova.Listing.{refs_from}

-- No reference twice.
abbrev pub Distinct : List ℕ → Type 0
Distinct [] = Unit
Distinct (x ∷ xs) = All (λ y. x ≢ y) xs × Distinct xs

abbrev pub Below : ℕ → List ℕ → Type 0
Below n xs = All (λ r. r < n) xs

module _ {ℓ} {A : Type ℓ} where
  pub All-reverse {κ} : (P : A → Type κ) (xs : List A) → All P xs → All P (reverse xs)
  All-reverse P [] h = tt
  All-reverse P (x ∷ xs) (p, h) =
      rw (reverse-cons x xs) (All-append P (reverse xs) (x ∷ []) (All-reverse P xs h) (p, tt))

pub Below-le : (m n : ℕ) (xs : List ℕ) → m ≤ n → Below m xs → Below n xs
Below-le m n xs le = All-map (λ (r : ℕ) (h : r < m). omega arith) xs

-- Distinct lists one after the other, the first below a bound and the second not.
Distinct-snoc : (xs : List ℕ) (y : ℕ) → Distinct xs → All (λ x. x ≢ y) xs → Distinct (xs ++ y ∷ [])
Distinct-snoc [] y d h = (tt, tt)
Distinct-snoc (x ∷ xs) y (n, d) (p, h) =
    (All-append (λ z. x ≢ z) xs (y ∷ []) n (p, tt), Distinct-snoc xs y d h)

pub Distinct-reverse : (xs : List ℕ) → Distinct xs → Distinct (reverse xs)
Distinct-reverse [] d = tt
Distinct-reverse (x ∷ xs) (n, d) = rw (reverse-cons x xs) (
    Distinct-snoc (reverse xs) x (Distinct-reverse xs d)
      (All-reverse (λ z. z ≢ x) xs (All-map (λ (z : ℕ) (h : x ≢ z). λ e. h (sym e)) xs n)))

module _ (gt : ℕ → ℕ → Bool) where
  Distinct-insert_sorted :
      (x : ℕ) (xs : List ℕ) → All (λ y. x ≢ y) xs → Distinct xs → Distinct (insert_sorted gt x xs)
  unfolding insert_sorted
  Distinct-insert_sorted x [] n d = (tt, tt)
  Distinct-insert_sorted x (y ∷ ys) (p, n) (m, d) = elim (Bool-cases (gt x y)) [
    | inl e ↦
        rw (e, insert_sorted)
          (
            All-insert_sorted gt (λ z. y ≢ z) x ys (λ e. p (sym e)) m,
            Distinct-insert_sorted x ys n d,
          )
    | inr e ↦ rw (e, insert_sorted) ((p, n), (m, d))
  ]

  pub Distinct-sort : (xs : List ℕ) → Distinct xs → Distinct (sort gt xs)
  unfolding sort
  Distinct-sort [] d = tt
  Distinct-sort (x ∷ xs) (n, d) =
      Distinct-insert_sorted x (sort gt xs) (All-sort gt (λ y. x ≢ y) xs n) (Distinct-sort xs d)

pub refs_from-bounds : (n k : ℕ) → All (λ r. n ≤ r) (refs_from n k) × Below (n + k) (refs_from n k)
refs_from-bounds n zero = (tt, tt)
refs_from-bounds n (suc k) =
    let (lo, hi) = refs_from-bounds (suc n) k in
    (
      (omega arith, All-map (λ (r : ℕ) (h : suc n ≤ r). omega arith) (refs_from (suc n) k) lo),
      (omega arith, All-map (λ (r : ℕ) (h : r < suc n + k). omega arith) (refs_from (suc n) k) hi),
    )

pub Distinct-refs_from : (n k : ℕ) → Distinct (refs_from n k)
Distinct-refs_from n zero = tt
Distinct-refs_from n (suc k) = (
  All-map (λ (r : ℕ) (h : suc n ≤ r). λ (e : n ≡ r). absurd (omega arith)) (refs_from (suc n) k)
      (refs_from-bounds (suc n) k).0,
  Distinct-refs_from (suc n) k,
)

module _ (n : ℕ) (ys : List ℕ) (above : All (λ r. n ≤ r) ys) (dys : Distinct ys) where
  ne_above : (x : ℕ) → x < n → All (λ y. x ≢ y) ys
  ne_above x h = All-map (λ (r : ℕ) (k : n ≤ r). λ (e : x ≡ r). absurd (omega arith)) ys above

  Distinct-append_drop :
      (zs : List ℕ) (rest : List ℕ)
      → All (λ r. n ≤ r) zs
      → Distinct zs
      → Below n rest
      → Distinct rest
      → Distinct (zs ++ rest)
  Distinct-append_drop [] rest a d b e = e
  Distinct-append_drop (z ∷ zs) rest (q, a) (m, d) b e = (
    All-append (λ y. z ≢ y) zs rest m
        (All-map (λ (r : ℕ) (k : r < n). λ (e : z ≡ r). absurd (omega arith)) rest b),
    Distinct-append_drop zs rest a d b e,
  )

  Distinct-drop : (k : ℕ) (xs : List ℕ) → Distinct xs → Distinct (drop k xs)
  Distinct-drop zero xs d = d
  Distinct-drop (suc k) [] d = tt
  Distinct-drop (suc k) (x ∷ xs) (m, d) = Distinct-drop k xs d

  pub Distinct-cut :
      (xs : List ℕ) (a b : ℕ)
      → a ≤ b
      → Below n xs
      → Distinct xs
      → Distinct (take a xs ++ (ys ++ drop b xs))
  Distinct-cut xs zero b le h d =
      Distinct-append_drop ys (drop b xs) above dys (All-drop (λ r. r < n) b xs h)
        (Distinct-drop b xs d)
  Distinct-cut xs (suc a) zero le h d = absurd (omega arith)
  Distinct-cut [] (suc a) (suc b) le h d = Distinct-append_drop ys [] above dys tt tt
  Distinct-cut (x ∷ xs) (suc a) (suc b) le (q, h) (m, d) = (
    All-append (λ y. x ≢ y) (take a xs) (ys ++ drop b xs) (All-take (λ y. x ≢ y) a xs m)
        (All-append (λ y. x ≢ y) ys (drop b xs) (ne_above x q) (All-drop (λ y. x ≢ y) b xs m)),
    Distinct-cut xs a b (omega arith) h d,
  )
