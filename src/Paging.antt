-- ===== src/Paging.antt =====
-- How every table of the console cuts its rows into pages (`ITEMS_PER_PAGE` of
-- web-src/web/src/constants/common.constant.js, and the expressions that the five tables share).
pub mod Laws
use lite_nova.Prelude.{ℕ, ◌+◌, ◌-◌, ◌*◌, ◌/◌, ◌%◌, List, ◌++◌, ◌==◌, if◌then◌else◌, take, drop}

abbrev pub items_per_page : ℕ
items_per_page = 10

-- `Math.ceil(n / ITEMS_PER_PAGE)`
unfoldable pub page_count : ℕ → ℕ
page_count n = (n + 9) / items_per_page

-- `totalPages` of the pager
unfoldable pub total_pages : ℕ → ℕ
unfolding page_count
total_pages n = page_count n + (if (n % items_per_page) == 0 then 1 else 0)

-- `(activePage - 1) * ITEMS_PER_PAGE + idx`
unfoldable pub real_idx : ℕ → ℕ → ℕ
real_idx active_page idx = (active_page - 1) * items_per_page + idx

module _ {ℓ} {A : Type ℓ} where
  -- `xs.slice(from, to)` for indices that are not negative
  unfoldable pub slice : List A → ℕ → ℕ → List A
  slice xs from to = take (to - from) (drop from xs)

  -- the rows that are rendered for a page
  unfoldable pub page_slice : ℕ → List A → List A
  unfolding slice
  page_slice active_page xs =
      slice xs ((active_page - 1) * items_per_page) (active_page * items_per_page)

  -- `xs.splice(start, count, ...ys)`; a start past the end appends
  unfoldable pub splice : List A → ℕ → ℕ → List A → List A
  splice xs start count ys = take start xs ++ (ys ++ drop (start + count) xs)
