-- ===== src/Users.antt =====
-- The table of users (web-src/web/src/components/UsersTable.js). Its loader pushes the rows of a
-- page onto the array itself, not onto a copy: `mine` is what the array that the handler captured
-- holds when the reply is in, which is the array of the state unless a handler put a copy there.
pub mod Laws
pub mod Tests
use lite_nova.Prelude.{ℕ, ◌+◌, ◌-◌, Bool, true, false, String, List, Option, none, some}
use lite_nova.Prelude.{length, ◌==◌, str_eq, if◌then◌else◌}
use lite_nova.Prelude.Int.{ℤ, pos}
use lite_nova.Effects.{success, Reply, rejected, resolved, Outcome, done, threw, type_error, ◌>>=◌}
use lite_nova.Paging.{page_count, real_idx}
use lite_nova.Sorting.Columns.{Js, Cell, num, str, cell_greater}
use lite_nova.Listing.{
  Listing, set_rows, push_rows, set_row, set_loading, set_searching, set_active_page, complain,
  show, catch_error, sort_rows, page_rows,
}

-- A row; a user that the server sends has no `deleted`, which is false here.
pub record User : Type 0 where
  pub id : ℕ
  pub username : String
  pub group : String
  pub quota : ℤ
  pub role : ℕ
  pub status : ℕ
  pub deleted : Bool

pub record UsersTable : Type 0 where
  pub listing : Listing User
  pub order_by : String

-- `renderRole`: the colour of the label, none for a plain one, and the key of its text.
unfoldable pub render_role : ℕ → Option String × String
render_role role =
    if role == 1
    then (none, "user.table.role_types.normal")
    else (if role == 10
        then (some "yellow", "user.table.role_types.admin")
        else (if role == 100
            then (some "orange", "user.table.role_types.super_admin")
            else (some "red", "user.table.role_types.unknown")))

-- `renderStatus`
unfoldable pub render_status : ℕ → Option String × String
render_status status =
    if status == 1
    then (none, "user.table.status_types.activated")
    else (if status == 2
        then (some "red", "user.table.status_types.banned")
        else (some "grey", "user.table.status_types.unknown"))

-- Where the rows of a reply go: the first page replaces the array, another is pushed onto the
-- captured one.
unfoldable pub place_users : (mine : List ℕ) → (start : ℕ) → List User → Listing User → Listing User
place_users mine start rows s =
    if start == 0 then set_rows rows s else push_rows rows (record s { items = mine })

-- `loadUsers`
unfoldable pub load_users :
    (order_by : String)
    → (mine : List ℕ) → (api : ℕ → String → Reply (List User)) → (start : ℕ) → Listing User
    → Outcome (Listing User)
load_users order_by mine api start s = elim (api start order_by) [
  | rejected e ↦ threw e s
  | resolved a ↦ done (
      set_loading false
        (if a.success then place_users mine start a.payload s else complain a.message s))
]

-- `onPaginationChange`
unfoldable pub on_pagination_change :
    (seen : UsersTable)
    → (mine : List ℕ) → (api : ℕ → String → Reply (List User)) → (page : ℕ) → Listing User
    → Outcome (Listing User)
on_pagination_change seen mine api page s =
    (if page == (page_count (length seen.listing.items) + 1)
      then load_users seen.order_by mine api (page - 1) s
      else done s)
    >>= λ s'. done (set_active_page page s')

-- The effect on `[orderBy]`.
unfoldable pub order_effect :
    (order_by : String)
    → (mine : List ℕ) → (api : ℕ → String → Reply (List User)) → Listing User
    → Outcome (Listing User)
order_effect order_by mine api s = catch_error (load_users order_by mine api 0 s)

pub data Action : Type 0 where
  promote demote delete enable disable : Action

-- `{ username, action }`, which is posted
pub record Request : Type 0 where
  pub username : String
  pub action : Action

abbrev pub mark_deleted : User → User
mark_deleted x = record x { deleted = true }

-- The status and the role that the server sent.
abbrev pub set_status : User → User → User
set_status sent x = record x { status = sent.status; role = sent.role }

-- What a successful reply changes.
unfoldable pub apply_action :
    (seen : Listing User) → Action → (idx : ℕ) → Option User → Listing User → Outcome (Listing User)
apply_action seen delete idx sent s =
    set_row seen.items (real_idx seen.active_page idx) mark_deleted s
apply_action seen action idx none s = threw type_error s
apply_action seen action idx (some x) s =
    set_row seen.items (real_idx seen.active_page idx) (set_status x) s

-- `manageUser`
unfoldable pub manage_user :
    (seen : Listing User)
    → (api : Request → Reply (Option User)) → (username : String) → Action
    → (idx : ℕ) → Listing User
    → Outcome (Listing User)
manage_user seen api username action idx s =
    elim (api (record { username = username; action = action })) [
      | rejected e ↦ threw e s
      | resolved a ↦
          if a.success
          then apply_action seen action idx a.payload
              (show (success "user.messages.operation_success") s)
          else done (complain a.message s)
    ]

-- What a handler does to the rows, with the order put next to them.
abbrev pub ordered : String → Outcome (Listing User) → Outcome UsersTable
ordered order_by (done s) = done (record { listing = s; order_by = order_by })
ordered order_by (threw e s) = threw e (record { listing = s; order_by = order_by })

-- `searchUsers`
unfoldable pub search_users :
    (seen : UsersTable)
    → (mine : List ℕ) → (api : ℕ → String → Reply (List User))
    → (query : String → Reply (List User)) → UsersTable
    → Outcome UsersTable
search_users seen mine api query s =
    if str_eq seen.listing.search_keyword ""
    then (ordered s.order_by (load_users seen.order_by mine api 0 s.listing) >>= λ s'.
        done (record { listing = set_active_page 1 s'.listing; order_by = "" }))
    else ordered s.order_by (elim (query seen.listing.search_keyword) [
      | rejected e ↦ threw e (set_searching true s.listing)
      | resolved a ↦ done (
          set_searching false (
            if a.success
            then set_active_page 1 (set_rows a.payload s.listing)
            else complain a.message s.listing))
    ])

-- `handleKeywordChange`
unfoldable pub handle_keyword_change : Js → String → Listing User → Listing User
handle_keyword_change js value s = record s { search_keyword = js.trim value }

-- `handleOrderByChange`
unfoldable pub handle_order_by_change : String → UsersTable → UsersTable
handle_order_by_change value s = record { listing = set_active_page 1 s.listing; order_by = value }

pub data Column : Type 0 where
  by_id by_username by_group by_quota by_role by_status : Column

abbrev pub cell : Column → User → Cell
cell by_id x = num (pos x.id)
cell by_username x = str x.username
cell by_group x = str x.group
cell by_quota x = num x.quota
cell by_role x = num (pos x.role)
cell by_status x = num (pos x.status)

abbrev pub user_greater : Js → Column → User → User → Bool
user_greater js key a b = cell_greater js (cell key a) (cell key b)

-- `sortUser`
unfoldable pub sort_user : Js → Column → (seen : Listing User) → Listing User → Listing User
sort_user js key seen s = sort_rows (λ x. x.id) (user_greater js key) seen.items s

-- The rows of the table's body.
unfoldable pub shown_users : Listing User → List User
unfolding page_rows
shown_users s = page_rows (λ x. x.deleted) s
