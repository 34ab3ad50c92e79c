-- ===== src/Tokens.antt =====
-- The table of tokens (web-src/web/src/components/TokensTable.js): its rows, and the handlers that
-- load, page, refresh, manage, search and sort them. As for the channels, `seen` is the state of
-- the render that made the handler.
pub mod Links
pub mod Laws
pub mod Tests
use lite_nova.Prelude.{ℕ, ◌+◌, ◌-◌, Bool, true, false, String, List, [], ◌∷◌, Option, none, some}
use lite_nova.Prelude.{length, ◌==◌, str_eq, if◌then◌else◌}
use lite_nova.Prelude.Int.{ℤ, pos}
use lite_nova.Effects.{success, Reply, rejected, resolved, Outcome, done, threw, type_error, ◌>>=◌}
use lite_nova.Paging.{page_count, real_idx}
use lite_nova.Sorting.Columns.{Js, Cell, num, str, cell_greater}
use lite_nova.Listing.{
  Listing, set_rows, place_rows, set_row, set_loading, set_searching, set_active_page, complain,
  show, catch_error, sort_rows, page_rows,
}

-- A row; a token that the server sends has no `deleted`, which is false here.
pub record Token : Type 0 where
  pub id : ℕ
  pub name : String
  pub key : String
  pub status : ℕ
  pub used_quota : ℤ
  pub remain_quota : ℤ
  pub unlimited_quota : Bool
  pub created_time : ℕ
  pub expired_time : ℤ
  pub deleted : Bool

pub record TokensTable : Type 0 where
  pub listing : Listing Token
  pub order_by : String

-- `renderStatus`: the colour of the label, and the key of its text.
unfoldable pub render_status : ℕ → String × String
render_status status =
    if status == 1
    then ("green", "token.table.status_enabled")
    else (if status == 2
        then ("red", "token.table.status_disabled")
        else (if status == 3
            then ("yellow", "token.table.status_expired")
            else (if status == 4
                then ("grey", "token.table.status_depleted")
                else ("black", "token.table.status_unknown"))))

-- `loadTokens`: the endpoint is asked for a page in an order.
unfoldable pub load_tokens :
    (seen : TokensTable)
    → (api : ℕ → String → Reply (List Token)) → (start : ℕ) → Listing Token
    → Outcome (Listing Token)
load_tokens seen api start s = elim (api start seen.order_by) [
  | rejected e ↦ threw e s
  | resolved a ↦ done (
      set_loading false (
        if a.success
        then place_rows seen.listing.items start a.payload s
        else complain a.message s))
]

-- `onPaginationChange`
unfoldable pub on_pagination_change :
    (seen : TokensTable)
    → (api : ℕ → String → Reply (List Token)) → (page : ℕ) → Listing Token
    → Outcome (Listing Token)
on_pagination_change seen api page s =
    (if page == (page_count (length seen.listing.items) + 1)
      then load_tokens seen api (page - 1) s
      else done s)
    >>= λ s'. done (set_active_page page s')

-- `refresh`
unfoldable pub refresh :
    (seen : TokensTable)
    → (api : ℕ → String → Reply (List Token)) → Listing Token
    → Outcome (Listing Token)
refresh seen api s = load_tokens seen api (seen.listing.active_page - 1) (set_loading true s)

-- The effect on `[orderBy]`.
unfoldable pub order_effect :
    (seen : TokensTable)
    → (api : ℕ → String → Reply (List Token)) → Listing Token
    → Outcome (Listing Token)
order_effect seen api s = catch_error (load_tokens seen api 0 s)

pub data Action : Type 0 where
  delete enable disable : Action

pub data Request : Type 0 where
  delete_token : (id : ℕ) → Request
  put_status : (id status : ℕ) → Request

-- The `switch` of `manageToken`.
unfoldable pub manage_request : (id : ℕ) → Action → Request
manage_request id delete = delete_token id
manage_request id enable = put_status id 1
manage_request id disable = put_status id 2

abbrev pub mark_deleted : Token → Token
mark_deleted x = record x { deleted = true }

abbrev pub set_status : ℕ → Token → Token
set_status status x = record x { status = status }

-- What a successful reply changes; only a deletion does without the token that the server sends.
unfoldable pub apply_action :
    (seen : Listing Token)
    → Action
    → (idx : ℕ) → Option Token
    → Listing Token
    → Outcome (Listing Token)
apply_action seen delete idx sent s =
    set_row seen.items (real_idx seen.active_page idx) mark_deleted s
apply_action seen action idx none s = threw type_error s
apply_action seen action idx (some x) s =
    set_row seen.items (real_idx seen.active_page idx) (set_status x.status) s

-- `manageToken`
unfoldable pub manage_token :
    (seen : Listing Token)
    → (api : Request → Reply (Option Token)) → (id : ℕ) → Action
    → (idx : ℕ) → Listing Token
    → Outcome (Listing Token)
manage_token seen api id action idx s = elim (api (manage_request id action)) [
  | rejected e ↦ threw e s
  | resolved a ↦
      if a.success
      then apply_action seen action idx a.payload
          (show (success "token.messages.operation_success") s)
      else done (complain a.message s)
]

-- What a handler does to the rows, with the order put next to them.
abbrev pub ordered : String → Outcome (Listing Token) → Outcome TokensTable
ordered order_by (done s) = done (record { listing = s; order_by = order_by })
ordered order_by (threw e s) = threw e (record { listing = s; order_by = order_by })

-- `searchTokens`
unfoldable pub search_tokens :
    (seen : TokensTable)
    → (api : ℕ → String → Reply (List Token)) → (search : String → Reply (List Token)) → TokensTable
    → Outcome TokensTable
search_tokens seen api search s =
    if str_eq seen.listing.search_keyword ""
    then (ordered s.order_by (load_tokens seen api 0 s.listing) >>= λ s'.
        done (record { listing = set_active_page 1 s'.listing; order_by = "" }))
    else ordered s.order_by (elim (search seen.listing.search_keyword) [
      | rejected e ↦ threw e (set_searching true s.listing)
      | resolved a ↦ done (
          set_searching false (
            if a.success
            then set_active_page 1 (set_rows a.payload s.listing)
            else complain a.message s.listing))
    ])

-- `handleKeywordChange`
unfoldable pub handle_keyword_change : Js → String → Listing Token → Listing Token
handle_keyword_change js value s = record s { search_keyword = js.trim value }

-- `handleOrderByChange`
unfoldable pub handle_order_by_change : String → TokensTable → TokensTable
handle_order_by_change value s = record { listing = set_active_page 1 s.listing; order_by = value }

pub data Column : Type 0 where
  by_name by_status by_used_quota by_remain_quota by_created_time by_expired_time : Column

abbrev pub cell : Column → Token → Cell
cell by_name x = str x.name
cell by_status x = num (pos x.status)
cell by_used_quota x = num x.used_quota
cell by_remain_quota x = num x.remain_quota
cell by_created_time x = num (pos x.created_time)
cell by_expired_time x = num x.expired_time

abbrev pub token_greater : Js → Column → Token → Token → Bool
token_greater js key a b = cell_greater js (cell key a) (cell key b)

-- `sortToken`
unfoldable pub sort_token : Js → Column → (seen : Listing Token) → Listing Token → Listing Token
sort_token js key seen s = sort_rows (λ x. x.id) (token_greater js key) seen.items s

-- The rows of the table's body.
unfoldable pub shown_tokens : Listing Token → List Token
unfolding page_rows
shown_tokens s = page_rows (λ x. x.deleted) s
