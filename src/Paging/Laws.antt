-- ===== src/Paging/Laws.antt =====
-- Pages and the pager: what the expressions of the tables amount to.
use lite_nova.Prelude.{
  ℕ, ◌+◌, ◌-◌, ◌*◌, ◌/◌, ◌%◌, ◌≤◌, ◌≡◌, ap, sym, ◌∙◌, ◌↔◌, List, ◌++◌, some, arith, append-nil,
  length, get_elem?, drop, take_of_length-le, drop_of_length-le, drop-append_length, get_elem?-take,
  get_elem?-drop,
}
use lite_nova.Paging.{page_count, total_pages, real_idx, page_slice, splice}

-- The pager always offers one page more than there are full pages.
pub total_pages-eq : (n : ℕ) → total_pages n ≡ n / 10 + 1
unfolding total_pages
total_pages-eq n = ground arith

-- The page that makes the tables load more rows is on offer exactly when every page is full.
pub next_page_offered_iff : (n : ℕ) → (page_count n + 1 ≤ total_pages n) ↔ (n % 10 ≡ 0)
unfolding total_pages
next_page_offered_iff n = (λ h. ground arith, λ h. ground arith)

pub page_count-mul : (n : ℕ) → n % 10 ≡ 0 → page_count n * 10 ≡ n
unfolding page_count
page_count-mul n h = omega arith

pub length-le-page_count : (n : ℕ) → n ≤ page_count n * 10
unfolding page_count
length-le-page_count n = omega arith

module _ {ℓ} {A : Type ℓ} where
  -- The row at a position of the rendered page is the row at `realIdx` of the array.
  pub get_elem?-page_slice :
      (p : ℕ) (xs : List A) (idx : ℕ) {x : A}
      → get_elem? (page_slice p xs) idx ≡ some x
      → get_elem? xs (real_idx p idx) ≡ some x
  unfolding page_slice real_idx
  get_elem?-page_slice p xs idx h =
      sym (get_elem?-drop ((p - 1) * 10) xs idx)
      ∙ get_elem?-take (p * 10 - (p - 1) * 10) (drop ((p - 1) * 10) xs) idx h

  -- A splice at the end or behind it appends.
  pub splice_end :
      (xs ys : List A) (start count : ℕ) → length xs ≤ start → splice xs start count ys ≡ xs ++ ys
  unfolding splice
  splice_end xs ys start count h =
      rw (take_of_length-le start xs h, drop_of_length-le (start + count) xs (omega arith))
        (ap (xs ++◌) (append-nil ys))

  -- The page behind a number of full pages shows what was appended to them, up to a page of it.
  pub page_slice-append :
      (xs ys : List A)
      → length xs % 10 ≡ 0
      → length ys ≤ 10
      → page_slice (page_count (length xs) + 1) (xs ++ ys) ≡ ys
  unfolding page_slice
  page_slice-append xs ys h k =
      let start : ℕ = (page_count (length xs) + 1 - 1) * 10 in
      rw (drop-append_length start xs ys (omega (arith, page_count-mul (length xs) h)))
        (take_of_length-le ((page_count (length xs) + 1) * 10 - start) ys (omega arith))
