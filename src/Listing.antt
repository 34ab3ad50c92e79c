-- ===== src/Listing.antt =====
-- The state that the five tables of the console share (channels, tokens, users, redemptions,
-- logs, under web-src/web/src/components), and the ways in which their handlers change it.
-- The rows are JavaScript objects, shared by reference between the array of one render and that of
-- the next: the heap holds the objects, and an array of rows is a list of indices into it.
pub mod Refs
pub mod Valid
pub mod Keeps
pub mod Laws
pub mod Pages
use lite_nova.Prelude.{ℕ, zero, suc, ◌*◌, Bool, true, false, not, keep, String, List, [], ◌∷◌, ◌++◌}
use lite_nova.Prelude.{Option, none, some, reverse, length, get_elem?, modify, ◌==◌}
use lite_nova.Prelude.{if◌then◌else◌}
use lite_nova.Effects.{
  Effect, Failure, type_error, Outcome, done, threw, show_error, show_error_text,
}
use lite_nova.Paging.{items_per_page, splice, page_slice}
use lite_nova.Sorting.{sort}

pub record Listing (Row : Type 0) : Type 0 where
  pub heap : List Row
  pub items : List ℕ
  pub loading : Bool
  pub active_page : ℕ
  pub search_keyword : String
  pub searching : Bool
  pub effects : List Effect

-- The indices of `count` objects that are new behind the first `n`.
abbrev pub refs_from : ℕ → ℕ → List ℕ
refs_from n zero = []
refs_from n (suc count) = n ∷ refs_from (suc n) count

-- The objects that a list of references names.
abbrev pub rows_at : {Row : Type 0} → List Row → List ℕ → List Row
rows_at heap [] = []
rows_at heap (r ∷ rs) = elim (get_elem? heap r) [
  | none ↦ rows_at heap rs
  | some x ↦ x ∷ rows_at heap rs
]

module _ {Row : Type 0} where
  abbrev pub fresh : List Row → Listing Row → List ℕ
  fresh rows s = refs_from (length s.heap) (length rows)

  -- `setRows(data)`
  unfoldable pub set_rows : List Row → Listing Row → Listing Row
  set_rows rows s = record s { heap = s.heap ++ rows; items = fresh rows s }

  -- `let newRows = [...rows]; newRows.splice(startIdx * ITEMS_PER_PAGE, data.length, ...data);
  -- setRows(newRows)`, over the array `seen` that the handler has captured
  unfoldable pub splice_rows : List ℕ → ℕ → List Row → Listing Row → Listing Row
  splice_rows seen start rows s = record s {
    heap = s.heap ++ rows;
    items = splice seen (start * items_per_page) (length rows) (fresh rows s);
  }

  -- Where the rows of a reply go: the first page replaces the array, another is spliced into it.
  unfoldable pub place_rows : List ℕ → ℕ → List Row → Listing Row → Listing Row
  unfolding set_rows splice_rows
  place_rows seen start rows s =
      if start == 0 then set_rows rows s else splice_rows seen start rows s

  -- `let newRows = rows; newRows.push(...data); setRows(newRows)`
  unfoldable pub push_rows : List Row → Listing Row → Listing Row
  push_rows rows s = record s { heap = s.heap ++ rows; items = s.items ++ fresh rows s }

  -- `let newRows = [...rows]; newRows[i].field = …; setRows(newRows)`: the object is changed in
  -- place, the array `seen` is copied, and a missing row is a TypeError.
  unfoldable pub set_row : List ℕ → ℕ → (Row → Row) → Listing Row → Outcome (Listing Row)
  set_row seen i change s = elim (get_elem? seen i) [
    | none ↦ threw type_error s
    | some r ↦ done (record s { heap = modify s.heap r change; items = seen })
  ]

  abbrev pub set_loading : Bool → Listing Row → Listing Row
  set_loading b s = record s { loading = b }

  abbrev pub set_searching : Bool → Listing Row → Listing Row
  set_searching b s = record s { searching = b }

  abbrev pub set_active_page : ℕ → Listing Row → Listing Row
  set_active_page p s = record s { active_page = p }

  abbrev pub show : Effect → Listing Row → Listing Row
  show e s = record s { effects = e ∷ s.effects }

  -- `showError(message)`
  abbrev pub complain : String → Listing Row → Listing Row
  complain message s = record s { effects = show_error_text message s.effects }

  -- `promise.catch((reason) => { showError(reason); })`
  unfoldable pub catch_error : Outcome (Listing Row) → Outcome (Listing Row)
  catch_error (done s) = done s
  catch_error (threw e s) = elim (show_error e s.effects) [
    | done shown ↦ done (record s { effects = shown })
    | threw e' shown ↦ threw e' (record s { effects = shown })
  ]

  -- The rows of the active page that are rendered: those that are not marked as deleted.
  unfoldable pub page_rows : (Row → Bool) → Listing Row → List Row
  page_rows deleted s =
      keep (λ x. not (deleted x)) (rows_at s.heap (page_slice s.active_page s.items))

  -- The test at the end of a sort: does the sorted array begin with the row that came first?
  abbrev pub same_id : (Row → ℕ) → Option Row → Option Row → Bool
  same_id id (some x) (some y) = id x == id y
  same_id id _ _ = false

  abbrev pub same_head : (Row → ℕ) → List Row → List ℕ → List ℕ → Bool
  same_head id heap (r ∷ rs) (q ∷ qs) = same_id id (get_elem? heap r) (get_elem? heap q)
  same_head id heap _ _ = false

  -- The comparison of two references through the rows that they name. (A reference that names no
  -- row, which no array of the program holds, comes first.)
  abbrev pub opt_greater : (Row → Row → Bool) → Option Row → Option Row → Bool
  opt_greater gt none y = false
  opt_greater gt (some x) none = true
  opt_greater gt (some x) (some y) = gt x y

  abbrev pub by_row : List Row → (Row → Row → Bool) → ℕ → ℕ → Bool
  by_row heap gt a b = opt_greater gt (get_elem? heap a) (get_elem? heap b)

  -- The new order of an array: sorted, and turned round if it begins as it did before.
  unfoldable pub toggled : List Row → (Row → ℕ) → (Row → Row → Bool) → List ℕ → List ℕ
  toggled heap id gt items =
      let sorted = sort (by_row heap gt) items in
      if same_head id heap sorted items then reverse sorted else sorted

  -- `sortRows`, given the comparison of its column
  unfoldable pub sort_rows : (Row → ℕ) → (Row → Row → Bool) → List ℕ → Listing Row → Listing Row
  sort_rows id gt [] s = s
  sort_rows id gt (r ∷ seen) s =
      set_loading false (record s { items = toggled s.heap id gt (r ∷ seen) })
