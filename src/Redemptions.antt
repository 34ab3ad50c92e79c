-- ===== src/Redemptions.antt =====
-- The table of redemption codes (web-src/web/src/components/RedemptionsTable.js). As in the table
-- of users, the loader pushes onto the captured array, which holds `mine` when the reply is in.
pub mod Laws
pub mod Tests
use lite_nova.Prelude.{ℕ, ◌+◌, ◌-◌, Bool, true, false, String, List, Option, none, some}
use lite_nova.Prelude.{length, ◌==◌, str_eq, if◌then◌else◌}
use lite_nova.Prelude.Int.{ℤ, pos}
use lite_nova.Effects.{success, Reply, rejected, resolved, Outcome, done, threw, type_error, ◌>>=◌}
use lite_nova.Paging.{page_count, real_idx}
use lite_nova.Sorting.Columns.{Js, Cell, num, str, cell_greater}
use lite_nova.Listing.{
  Listing, set_rows, push_rows, set_row, set_loading, set_searching, set_active_page, complain,
  show, catch_error, sort_rows, page_rows,
}

-- A row; a code that the server sends has no `deleted`, which is false here.
pub record Redemption : Type 0 where
  pub id : ℕ
  pub name : String
  pub key : String
  pub status : ℕ
  pub quota : ℤ
  pub created_time : ℕ
  pub redeemed_time : ℕ
  pub deleted : Bool

-- `renderStatus`: the colour of the label, and the key of its text.
unfoldable pub render_status : ℕ → String × String
render_status status =
    if status == 1
    then ("green", "redemption.status.unused")
    else (if status == 2
        then ("red", "redemption.status.disabled")
        else (if status == 3
            then ("grey", "redemption.status.used")
            else ("black", "redemption.status.unknown")))

-- Where the rows of a reply go.
unfoldable pub place_redemptions :
    (mine : List ℕ) → (start : ℕ) → List Redemption → Listing Redemption → Listing Redemption
place_redemptions mine start rows s =
    if start == 0 then set_rows rows s else push_rows rows (record s { items = mine })

-- `loadRedemptions`
unfoldable pub load_redemptions :
    (mine : List ℕ)
    → (api : ℕ → Reply (List Redemption)) → (start : ℕ) → Listing Redemption
    → Outcome (Listing Redemption)
load_redemptions mine api start s = elim (api start) [
  | rejected e ↦ threw e s
  | resolved a ↦ done (
      set_loading false
        (if a.success then place_redemptions mine start a.payload s else complain a.message s))
]

-- `onPaginationChange`
unfoldable pub on_pagination_change :
    (seen : Listing Redemption)
    → (mine : List ℕ) → (api : ℕ → Reply (List Redemption)) → (page : ℕ) → Listing Redemption
    → Outcome (Listing Redemption)
on_pagination_change seen mine api page s =
    (if page == (page_count (length seen.items) + 1)
      then load_redemptions mine api (page - 1) s
      else done s)
    >>= λ s'. done (set_active_page page s')

-- The effect that runs when the table is mounted.
unfoldable pub mount :
    (mine : List ℕ)
    → (api : ℕ → Reply (List Redemption)) → Listing Redemption
    → Outcome (Listing Redemption)
mount mine api s = catch_error (load_redemptions mine api 0 s)

pub data Action : Type 0 where
  delete enable disable : Action

pub data Request : Type 0 where
  delete_redemption : (id : ℕ) → Request
  put_status : (id status : ℕ) → Request

-- The `switch` of `manageRedemption`.
unfoldable pub manage_request : (id : ℕ) → Action → Request
manage_request id delete = delete_redemption id
manage_request id enable = put_status id 1
manage_request id disable = put_status id 2

abbrev pub mark_deleted : Redemption → Redemption
mark_deleted x = record x { deleted = true }

abbrev pub set_status : ℕ → Redemption → Redemption
set_status status x = record x { status = status }

-- What a successful reply changes; only a deletion does without the code that the server sends.
unfoldable pub apply_action :
    (seen : Listing Redemption)
    → Action
    → (idx : ℕ) → Option Redemption
    → Listing Redemption
    → Outcome (Listing Redemption)
apply_action seen delete idx sent s =
    set_row seen.items (real_idx seen.active_page idx) mark_deleted s
apply_action seen action idx none s = threw type_error s
apply_action seen action idx (some x) s =
    set_row seen.items (real_idx seen.active_page idx) (set_status x.status) s

-- `manageRedemption`
unfoldable pub manage_redemption :
    (seen : Listing Redemption)
    → (api : Request → Reply (Option Redemption)) → (id : ℕ) → Action
    → (idx : ℕ) → Listing Redemption
    → Outcome (Listing Redemption)
manage_redemption seen api id action idx s = elim (api (manage_request id action)) [
  | rejected e ↦ threw e s
  | resolved a ↦
      if a.success
      then apply_action seen action idx a.payload
          (show (success "token.messages.operation_success") s)
      else done (complain a.message s)
]

-- `searchRedemptions`
unfoldable pub search_redemptions :
    (seen : Listing Redemption)
    → (mine : List ℕ) → (api : ℕ → Reply (List Redemption))
    → (query : String → Reply (List Redemption)) → Listing Redemption
    → Outcome (Listing Redemption)
search_redemptions seen mine api query s =
    if str_eq seen.search_keyword ""
    then (load_redemptions mine api 0 s >>= λ s'. done (set_active_page 1 s'))
    else elim (query seen.search_keyword) [
      | rejected e ↦ threw e (set_searching true s)
      | resolved a ↦ done (
          set_searching false
            (if a.success then set_active_page 1 (set_rows a.payload s) else complain a.message s))
    ]

-- `handleKeywordChange`
unfoldable pub handle_keyword_change : Js → String → Listing Redemption → Listing Redemption
handle_keyword_change js value s = record s { search_keyword = js.trim value }

pub data Column : Type 0 where
  by_id by_name by_status by_quota by_created_time by_redeemed_time : Column

abbrev pub cell : Column → Redemption → Cell
cell by_id x = num (pos x.id)
cell by_name x = str x.name
cell by_status x = num (pos x.status)
cell by_quota x = num x.quota
cell by_created_time x = num (pos x.created_time)
cell by_redeemed_time x = num (pos x.redeemed_time)

abbrev pub redemption_greater : Js → Column → Redemption → Redemption → Bool
redemption_greater js key a b = cell_greater js (cell key a) (cell key b)

-- `sortRedemption`
unfoldable pub sort_redemption :
    Js → Column → (seen : Listing Redemption) → Listing Redemption → Listing Redemption
sort_redemption js key seen s = sort_rows (λ x. x.id) (redemption_greater js key) seen.items s

-- `refresh`
unfoldable pub refresh :
    (mine : List ℕ)
    → (api : ℕ → Reply (List Redemption)) → Listing Redemption
    → Outcome (Listing Redemption)
refresh mine api s =
    load_redemptions mine api 0 (set_loading true s) >>= λ s'. done (set_active_page 1 s')

-- The rows of the table's body.
unfoldable pub shown_redemptions : Listing Redemption → List Redemption
unfolding page_rows
shown_redemptions s = page_rows (λ x. x.deleted) s
