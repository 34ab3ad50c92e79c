-- ===== src/Listing/Valid.antt =====
-- The invariant of a listing, and that every update keeps it.
use lite_nova.Prelude.{
  ℕ, ◌*◌, ◌≤◌, ◌<◌, ◌++◌, Bool, List, [], ◌∷◌, arith, length, get_elem?, take, All, length-append,
  length-modify, Bool-cases, Option-cases, inl, inr, append-nil, take_of_length-le,
  drop_of_length-le,
}
use lite_nova.Effects.{after}
use lite_nova.Paging.{splice, items_per_page}
use lite_nova.Sorting.{sort}
use lite_nova.Sorting.Laws.{All-sort}
use lite_nova.Listing.{
  Listing, fresh, set_rows, splice_rows, push_rows, set_row, sort_rows, toggled, by_row, same_head,
}
use lite_nova.Listing.Refs.{
  Distinct, Below, All-reverse, Below-le, Distinct-reverse, Distinct-sort, refs_from-bounds,
  Distinct-refs_from, Distinct-cut,
}
use lite_nova.Prelude.{All-append, All-take, All-drop}

-- An array of references that a render captured: its objects exist, and none is in it twice.
abbrev pub IsSeen : {Row : Type 0} → List ℕ → Listing Row → Type 0
IsSeen seen s = Below (length s.heap) seen × Distinct seen

-- The array of rows names objects that exist, none of them twice, and pages are counted from 1.
abbrev pub IsValid : {Row : Type 0} → Listing Row → Type 0
IsValid s = IsSeen s.items s × (1 ≤ s.active_page)

-- A change of the state that keeps the invariant and frees no object.
abbrev pub Keeps : {Row : Type 0} → Listing Row → Listing Row → Type 0
Keeps s t = IsValid t × (length s.heap ≤ length t.heap)

module _ {Row : Type 0} where
  fresh-IsSeen :
      (rows : List Row) (s : Listing Row)
      → All (λ r. length s.heap ≤ r) (fresh rows s)
        × Below (length (s.heap ++ rows)) (fresh rows s)
        × Distinct (fresh rows s)
  fresh-IsSeen rows s =
      let (lo, hi) = refs_from-bounds (length s.heap) (length rows) in
      (lo, rw (length-append s.heap rows) hi, Distinct-refs_from (length s.heap) (length rows))

  pub set_rows-IsValid : (rows : List Row) (s : Listing Row) → IsValid s → IsValid (set_rows rows s)
  unfolding set_rows
  set_rows-IsValid rows s v = let (lo, hi, d) = fresh-IsSeen rows s in ((hi, d), v.1)

  grown :
      (rows : List Row) (s : Listing Row) (xs : List ℕ)
      → Below (length s.heap) xs
      → Below (length (s.heap ++ rows)) xs
  grown rows s xs = Below-le _ _ xs (omega (arith, length-append s.heap rows))

  -- A splice of new rows into a captured array keeps the invariant.
  pub splice_rows-IsValid :
      (seen : List ℕ) (start : ℕ) (rows : List Row) (s : Listing Row)
      → IsSeen seen s
      → IsValid s
      → IsValid (splice_rows seen start rows s)
  unfolding splice_rows splice
  splice_rows-IsValid seen start rows s h v =
      let (lo, hi, d) = fresh-IsSeen rows s in
      let P : ℕ → Type 0 = λ r. r < length (s.heap ++ rows) in
      let old : Below (length (s.heap ++ rows)) seen = grown rows s seen h.0 in
      (
        (
          All-append P (take (start * items_per_page) seen) _ (All-take P _ seen old)
              (All-append P (fresh rows s) _ hi (All-drop P _ seen old)),
          Distinct-cut (length s.heap) (fresh rows s) lo d seen _ _ (omega arith) h.0 h.1,
        ),
        v.1,
      )

  pub push_rows-IsValid :
      (rows : List Row) (s : Listing Row) → IsValid s → IsValid (push_rows rows s)
  unfolding push_rows
  push_rows-IsValid rows s v =
      let (lo, hi, d) = fresh-IsSeen rows s in
      let n : ℕ = length s.items in
      let P : ℕ → Type 0 = λ r. r < length (s.heap ++ rows) in
      (
        (
          All-append P s.items (fresh rows s) (grown rows s s.items v.0.0) hi,
          rw
              (
                take_of_length-le n s.items (omega arith),
                drop_of_length-le n s.items (omega arith),
                append-nil,
              )
              at
              (Distinct-cut (length s.heap) (fresh rows s) lo d s.items n n (omega arith) v.0.0
                v.0.1),
        ),
        v.1,
      )

  pub set_row-IsValid :
      (seen : List ℕ) (i : ℕ) (f : Row → Row) (s : Listing Row)
      → IsSeen seen s
      → IsValid s
      → IsValid (after (set_row seen i f s))
  unfolding set_row
  set_row-IsValid seen i f s h v = elim (Option-cases (get_elem? seen i)) [
    | inl e ↦ rw (e, set_row) v
    | inr (r, e) ↦ rw (e, set_row) (((rw (length-modify s.heap r f) h.0, h.1), v.1))
  ]

  pub sort_rows-IsValid :
      (id : Row → ℕ) (gt : Row → Row → Bool) (seen : List ℕ) (s : Listing Row)
      → IsSeen seen s
      → IsValid s
      → IsValid (sort_rows id gt seen s)
  unfolding sort_rows toggled
  sort_rows-IsValid id gt [] s h v = v
  sort_rows-IsValid id gt (r ∷ seen) s h v =
      let P : ℕ → Type 0 = λ r. r < length s.heap in
      let b : All P (sort (by_row s.heap gt) (r ∷ seen)) =
        All-sort (by_row s.heap gt) P (r ∷ seen) h.0 in
      let d : Distinct (sort (by_row s.heap gt) (r ∷ seen)) =
        Distinct-sort (by_row s.heap gt) (r ∷ seen) h.1 in
      elim (Bool-cases (same_head id s.heap (sort (by_row s.heap gt) (r ∷ seen)) (r ∷ seen))) [
        | inl e ↦ rw e (((All-reverse P _ b, Distinct-reverse _ d), v.1))
        | inr e ↦ rw e (((b, d), v.1))
      ]
