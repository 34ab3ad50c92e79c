-- ===== src/Listing/Laws.antt =====
-- What the updates of a listing do to the rows and to the page that is shown.
use mathlib.Core.List.{Perm, reverse_perm, reverse-reverse}
use mathlib.Core.List.Perm
use lite_nova.Prelude.{
  ℕ, zero, suc, ◌≡◌, refl, ap, sym, ◌∙◌, ◌≢◌, ◌⊎◌, inl, inr, Bool, true, false, List, [], ◌∷◌, ◌++◌,
  Option, none, some, reverse, arith, length, get_elem?, modify, Bool-cases, get_elem?-modify_self,
  get_elem?-modify_ne, length-append, append_assoc, ==_iff,
}
use lite_nova.Effects.{done}
use lite_nova.Paging.{page_slice, real_idx}
use lite_nova.Paging.Laws.{get_elem?-page_slice}
use lite_nova.Sorting.{sort}
use lite_nova.Sorting.Laws.{IsOrder, IsSorted, sort-perm, sort-IsSorted, sort_of_IsSorted}
use lite_nova.Listing.{
  Listing, refs_from, rows_at, set_row, opt_greater, by_row, same_head, toggled, sort_rows,
}

-- Of the objects in two heaps the one at `r` is changed by `f`, and every other one is the same.
pub record RowChanged {Row : Type 0} (r : ℕ) (f : Row → Row) (s t : Listing Row) : Type 0 where
  pub changed : (x : Row) → get_elem? s.heap r ≡ some x → get_elem? t.heap r ≡ some (f x)
  pub others : (q : ℕ) → r ≢ q → get_elem? t.heap q ≡ get_elem? s.heap q

pub length-refs_from : (n k : ℕ) → length (refs_from n k) ≡ k
length-refs_from n zero = refl
length-refs_from n (suc k) = ap suc (length-refs_from (suc n) k)

module _ {Row : Type 0} where
  abbrev pub with_row : List ℕ → ℕ → (Row → Row) → Listing Row → Listing Row
  with_row seen r f s = record s { heap = modify s.heap r f; items = seen }

  pub set_row-eq-done :
      (seen : List ℕ) (i : ℕ) (f : Row → Row) (s : Listing Row) {r : ℕ}
      → get_elem? seen i ≡ some r
      → set_row seen i f s ≡ done (with_row seen r f s)
  unfolding set_row
  set_row-eq-done seen i f s e = rw (e, set_row)

  -- The row at a position of the captured page is the one that is written.
  pub set_row-page :
      (seen : List ℕ) (p idx : ℕ) (f : Row → Row) (s : Listing Row) {r : ℕ}
      → get_elem? (page_slice p seen) idx ≡ some r
      → set_row seen (real_idx p idx) f s ≡ done (with_row seen r f s)
  set_row-page seen p idx f s e =
      set_row-eq-done seen (real_idx p idx) f s (get_elem?-page_slice p seen idx e)

  pub with_row-RowChanged :
      (seen : List ℕ) (r : ℕ) (f : Row → Row) (s : Listing Row)
      → RowChanged r f s (with_row seen r f s)
  with_row-RowChanged seen r f s = record {
    changed = λ x e. get_elem?-modify_self s.heap r f e;
    others = λ q n. get_elem?-modify_ne s.heap r q f n;
  }

  get_elem?-middle :
      (xs : List Row) (y : Row) (ys : List Row) → get_elem? (xs ++ y ∷ ys) (length xs) ≡ some y
  get_elem?-middle [] y ys = refl
  get_elem?-middle (x ∷ xs) y ys = get_elem?-middle xs y ys

  -- References to new objects name exactly those objects.
  pub rows_at-fresh :
      (heap rows : List Row) → rows_at (heap ++ rows) (refs_from (length heap) (length rows)) ≡ rows
  rows_at-fresh heap [] = refl
  rows_at-fresh heap (x ∷ rows) =
      rw (get_elem?-middle heap x rows, rows_at)
        (ap (x ∷◌) (
          ap (λ h. rows_at h (refs_from (suc (length heap)) (length rows)))
            (sym (append_assoc heap (x ∷ []) rows))
          ∙ ap (λ n. rows_at ((heap ++ x ∷ []) ++ rows) (refs_from n (length rows)))
              (let e : suc (length heap) ≡ length (heap ++ x ∷ []) =
                  omega (arith, length-append heap (x ∷ [])) in
                e)
          ∙ rows_at-fresh (heap ++ x ∷ []) rows))

  opt_asym :
      (gt : Row → Row → Bool)
      → IsOrder gt
      → (x y : Option Row) → opt_greater gt x y ≡ true
      → opt_greater gt y x ≡ false
  opt_asym gt o none y h = cc
  opt_asym gt o (some x) none h = refl
  opt_asym gt o (some x) (some y) h = o.asym x y h

  opt_trans :
      (gt : Row → Row → Bool)
      → IsOrder gt
      → (x y z : Option Row) → opt_greater gt x y ≡ false
      → opt_greater gt y z ≡ false
      → opt_greater gt x z ≡ false
  opt_trans gt o none y z h k = refl
  opt_trans gt o (some x) none z h k = cc
  opt_trans gt o (some x) (some y) none h k = cc
  opt_trans gt o (some x) (some y) (some z) h k = o.trans x y z h k

  pub by_row-IsOrder :
      (heap : List Row) (gt : Row → Row → Bool) → IsOrder gt → IsOrder (by_row heap gt)
  by_row-IsOrder heap gt o = record {
    asym = λ a b. opt_asym gt o (get_elem? heap a) (get_elem? heap b);
    trans = λ a b c. opt_trans gt o (get_elem? heap a) (get_elem? heap b) (get_elem? heap c);
  }

  module _ (id : Row → ℕ) (gt : Row → Row → Bool) where
    toggled-cases :
        (heap : List Row) (items : List ℕ)
        → (toggled heap id gt items ≡ sort (by_row heap gt) items)
          ⊎ (toggled heap id gt items ≡ reverse (sort (by_row heap gt) items))
    unfolding toggled
    toggled-cases heap items =
        elim (Bool-cases (same_head id heap (sort (by_row heap gt) items) items)) [
          | inl e ↦ inr (rw e)
          | inr e ↦ inl (rw e)
        ]

    -- The new order of an array is a rearrangement of it.
    pub toggled-perm : (heap : List Row) (items : List ℕ) → Perm (toggled heap id gt items) items
    toggled-perm heap items = elim (toggled-cases heap items) [
      | inl e ↦ rw e (sort-perm (by_row heap gt) items)
      | inr e ↦ rw e (Perm.trans (reverse_perm _) (sort-perm (by_row heap gt) items))
    ]

    -- It is ascending, or it is so when read backwards.
    pub toggled-IsSorted :
        IsOrder gt
        → (heap : List Row) (items : List ℕ)
        → IsSorted (by_row heap gt) (toggled heap id gt items)
          ⊎ IsSorted (by_row heap gt) (reverse (toggled heap id gt items))
    toggled-IsSorted o heap items =
        let s = sort-IsSorted (by_row heap gt) (by_row-IsOrder heap gt o) items in
        elim (toggled-cases heap items) [
          | inl e ↦ inl (rw e s)
          | inr e ↦ inr (rw (e, reverse-reverse) s)
        ]

    same_head_refl :
        (heap : List Row) (r : ℕ) (rest : List ℕ) {x : Row}
        → get_elem? heap r ≡ some x
        → same_head id heap (r ∷ rest) (r ∷ rest) ≡ true
    same_head_refl heap r rest {x} k = rw k ((==_iff (id x) (id x)).1 refl)

    -- An ascending array is turned round.
    pub toggled_of_IsSorted :
        (heap : List Row) (r : ℕ) (rest : List ℕ) {x : Row}
        → get_elem? heap r ≡ some x
        → IsSorted (by_row heap gt) (r ∷ rest)
        → toggled heap id gt (r ∷ rest) ≡ reverse (r ∷ rest)
    unfolding toggled
    toggled_of_IsSorted heap r rest k h =
        rw (sort_of_IsSorted (by_row heap gt) (r ∷ rest) h, same_head_refl heap r rest k)

    pub sort_rows-items :
        (items : List ℕ) (s : Listing Row)
        → items ≢ []
        → ((sort_rows id gt items s).items ≡ toggled s.heap id gt items)
          × ((sort_rows id gt items s).heap ≡ s.heap)
          × ((sort_rows id gt items s).active_page ≡ s.active_page)
    unfolding sort_rows
    sort_rows-items [] s ne = absurd (ne refl)
    sort_rows-items (r ∷ rest) s ne = (refl, refl, refl)
