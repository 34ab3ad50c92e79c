-- ===== src/Listing/Pages.antt =====
-- What the page shows after a load and after a deletion.
use lite_nova.Prelude.{
  ℕ, zero, suc, ◌+◌, ◌-◌, ◌*◌, ◌≤◌, ◌%◌, ◌≡◌, ◌≢◌, refl, ap, sym, ◌∙◌, Bool, true, false, not, List,
  [], ◌∷◌, ◌++◌, none, some, arith, length, get_elem?, modify, take, keep, Bool-cases, Option-cases,
  inl, inr, get_elem?-modify_self, get_elem?-modify_ne, ◌==◌, ==_iff, eq-nil_of_length,
  get_elem?-modify-none, drop_of_length-le, All,
}
use lite_nova.Paging.{page_count, page_slice}
use lite_nova.Paging.Laws.{page_count-mul, splice_end, page_slice-append}
use lite_nova.Listing.{Listing, fresh, rows_at, place_rows, push_rows, page_rows, set_active_page}
use lite_nova.Listing.Laws.{rows_at-fresh, length-refs_from}

pub suc-eq-zero : (n : ℕ) → (suc n == 0) ≡ false
suc-eq-zero n = ground arith

take-nil : {A : Type 0} (n : ℕ) → take {A = A} n [] ≡ []
take-nil zero = refl
take-nil (suc n) = refl

module _ {A : Type 0} (p : A → Bool) where
  keep-cons_true : (x : A) (xs : List A) → p x ≡ true → keep p (x ∷ xs) ≡ x ∷ keep p xs
  keep-cons_true x xs e = rw (e, keep)

  keep-cons_false : (x : A) (xs : List A) → p x ≡ false → keep p (x ∷ xs) ≡ keep p xs
  keep-cons_false x xs e = rw (e, keep)

  keep-cons_cong :
      (x : A) (xs ys : List A) → keep p xs ≡ keep p ys → keep p (x ∷ xs) ≡ keep p (x ∷ ys)
  keep-cons_cong x xs ys h = elim (Bool-cases (p x)) [
    | inl e ↦ rw (e, keep) (ap (x ∷◌) h)
    | inr e ↦ rw (e, keep) h
  ]

-- The references other than `r`.
abbrev pub without : ℕ → List ℕ → List ℕ
without r = keep (λ q. not (q == r))

module _ {Row : Type 0} where
  -- Loading the page behind an array of full pages appends its rows.
  pub place_rows-next :
      (start : ℕ) (rows : List Row) (s : Listing Row)
      → length s.items ≡ start * 10
      → place_rows s.items start rows s ≡ push_rows rows s
  unfolding place_rows push_rows
  place_rows-next zero rows s h =
      ap (λ xs. record s { heap = s.heap ++ rows; items = xs ++ fresh rows s })
        (sym (eq-nil_of_length s.items h))
  place_rows-next (suc start) rows s h = rw (suc-eq-zero start) (
      ap (λ xs. record s { heap = s.heap ++ rows; items = xs })
        (splice_end s.items (fresh rows s) (suc start * 10) (length rows) (omega arith)))

  keep-All : (p : Row → Bool) (xs : List Row) → All (λ x. p x ≡ true) xs → keep p xs ≡ xs
  keep-All p [] h = refl
  keep-All p (x ∷ xs) (q, h) = rw (q, keep) (ap (x ∷◌) (keep-All p xs h))

  -- The new rows are then the page that is shown.
  pub page_rows-push_rows :
      (deleted : Row → Bool) (rows : List Row) (s : Listing Row)
      → length s.items % 10 ≡ 0
      → length rows ≤ 10
      → All (λ x. deleted x ≡ false) rows
      → page_rows deleted (set_active_page (page_count (length s.items) + 1) (push_rows rows s))
        ≡ rows
  unfolding page_rows push_rows
  page_rows-push_rows deleted rows s h k alive =
      ap (λ xs. keep (λ x. not (deleted x)) (rows_at (s.heap ++ rows) xs))
        (page_slice-append s.items (fresh rows s) h
          (omega (arith, length-refs_from (length s.heap) (length rows))))
      ∙ ap (keep (λ x. not (deleted x))) (rows_at-fresh s.heap rows)
      ∙ keep-All (λ x. not (deleted x)) rows (negate rows alive)
    where
      negate :
          (xs : List Row) → All (λ x. deleted x ≡ false) xs → All (λ x. not (deleted x) ≡ true) xs
      negate [] a = tt
      negate (x ∷ xs) (q, a) = (rw q, negate xs a)

  -- Behind an array of full pages there is nothing to show.
  pub page_rows-behind :
      (deleted : Row → Bool) (s : Listing Row)
      → length s.items % 10 ≡ 0
      → s.active_page ≡ page_count (length s.items) + 1
      → page_rows deleted s ≡ []
  unfolding page_rows page_slice
  page_rows-behind deleted s h e =
      let start : ℕ = (s.active_page - 1) * 10 in
      rw (drop_of_length-le start s.items (omega (arith, page_count-mul (length s.items) h, e))) (
        ap (λ xs. keep (λ x. not (deleted x)) (rows_at s.heap xs))
          (take-nil (s.active_page * 10 - start)))

  module _ (heap : List Row) (q : ℕ) (refs : List ℕ) where
    rows_at-cons_some :
        {x : Row} → get_elem? heap q ≡ some x → rows_at heap (q ∷ refs) ≡ x ∷ rows_at heap refs
    rows_at-cons_some e = rw (e, rows_at)

    rows_at-cons_none : get_elem? heap q ≡ none → rows_at heap (q ∷ refs) ≡ rows_at heap refs
    rows_at-cons_none e = rw (e, rows_at)

  -- Marking the object at `r` as deleted takes its row off the page, and no other row.
  module _ (deleted : Row → Bool) (mark : Row → Row) (gone : (x : Row) → deleted (mark x) ≡ true)
      (heap : List Row) (r : ℕ) where
    abbrev alive : List Row → List Row
    alive = keep (λ x. not (deleted x))

    pub keep-rows_at-modify :
        (refs : List ℕ)
        → alive (rows_at (modify heap r mark) refs) ≡ alive (rows_at heap (without r refs))
    keep-rows_at-modify [] = refl
    keep-rows_at-modify (q ∷ refs) =
        let ih = keep-rows_at-modify refs in
        elim (Bool-cases (q == r)) [
          | inl same ↦
              on_same q ((==_iff q r).0 same) refs
              ∙ ih
              ∙ sym (
                  ap (λ l. alive (rows_at heap l))
                    (keep-cons_false (λ q. not (q == r)) q refs (ap not same)))
          | inr other ↦
              on_other q (λ e. cc ((==_iff q r).1 e)) refs (without r refs) ih
              ∙ sym (
                  ap (λ l. alive (rows_at heap l))
                    (keep-cons_true (λ q. not (q == r)) q refs (ap not other)))
        ]
      where
        on_same :
            (q : ℕ)
            → q ≡ r
            → (refs : List ℕ)
            → alive (rows_at (modify heap r mark) (q ∷ refs))
              ≡ alive (rows_at (modify heap r mark) refs)
        on_same q e refs = rw e (elim (Option-cases (get_elem? heap r)) [
          | inl missing ↦ ap alive (
              rows_at-cons_none (modify heap r mark) r refs
                (get_elem?-modify-none heap r r mark missing))
          | inr (x, found) ↦
              ap alive (
                rows_at-cons_some (modify heap r mark) r refs
                  (get_elem?-modify_self heap r mark found))
              ∙ keep-cons_false (λ x. not (deleted x)) (mark x) (rows_at (modify heap r mark) refs)
                  (ap not (gone x))
        ])

        on_other :
            (q : ℕ)
            → q ≢ r
            → (refs refs' : List ℕ)
            → alive (rows_at (modify heap r mark) refs) ≡ alive (rows_at heap refs')
            → alive (rows_at (modify heap r mark) (q ∷ refs)) ≡ alive (rows_at heap (q ∷ refs'))
        on_other q n refs refs' h =
            let same : get_elem? (modify heap r mark) q ≡ get_elem? heap q =
              get_elem?-modify_ne heap r q mark (λ e. n (sym e)) in
            elim (Option-cases (get_elem? heap q)) [
              | inl missing ↦
                  ap alive (rows_at-cons_none (modify heap r mark) q refs (same ∙ missing))
                  ∙ h
                  ∙ sym (ap alive (rows_at-cons_none heap q refs' missing))
              | inr (x, found) ↦
                  ap alive (rows_at-cons_some (modify heap r mark) q refs (same ∙ found))
                  ∙ keep-cons_cong (λ x. not (deleted x)) x (rows_at (modify heap r mark) refs)
                      (rows_at heap refs') h
                  ∙ sym (ap alive (rows_at-cons_some heap q refs' found))
            ]
