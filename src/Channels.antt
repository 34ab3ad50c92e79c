-- ===== src/Channels.antt =====
-- The table of channels (web-src/web/src/components/ChannelsTable.js): its rows, and the handlers
-- that load, page, refresh, search and sort them. A handler is a closure of the render that made
-- it: `seen` is the state of that render, and the last argument the state in which the awaited
-- reply arrives. An endpoint of the API is a function from what is asked to the reply.
pub mod Manage
pub mod Rows
pub mod Pages
pub mod Keeps
pub mod Sessions
pub mod Order
pub mod Panel
pub mod Tests
use lite_nova.Prelude.{ℕ, ◌+◌, ◌-◌, Bool, true, false, String, List, [], ◌∷◌, Option, none, some}
use lite_nova.Prelude.{map, length, ◌==◌, str_eq, if◌then◌else◌}
use lite_nova.Prelude.Int.{ℤ, pos}
use lite_nova.Prelude.Text.{split_comma}
use lite_nova.Effects.{Reply, rejected, resolved, Outcome, done, threw, ◌>>=◌}
use lite_nova.Paging.{page_count}
use lite_nova.Sorting.Columns.{Js, Cell, num, str, cell_greater}
use lite_nova.Listing.{
  Listing, set_rows, place_rows, set_loading, set_searching, set_active_page, complain, catch_error,
  sort_rows, page_rows,
}

-- A channel as the server sends it. Its times and its balance may have a fraction, and each is
-- counted in a unit that makes it whole: the times of a test and of a balance, which are seconds,
-- in thousandths, as `Date.now()` gives them, the response time in thousandths of a millisecond,
-- and the balance in whatever fraction of its currency it is given to.
pub record ChannelData : Type 0 where
  pub id : ℕ
  pub name : String
  pub group : String
  pub type : ℕ
  pub status : ℕ
  pub response_time : ℕ
  pub test_time : ℕ
  pub balance : ℤ
  pub balance_updated_time : ℕ
  pub priority : ℤ
  pub models : String

pub record ModelOption : Type 0 where
  pub key : String
  pub text : String
  pub value : String

-- A row of the table.
pub record Channel : Type 0 where
  pub id : ℕ
  pub name : String
  pub group : String
  pub type : ℕ
  pub status : ℕ
  pub response_time : ℕ
  pub test_time : ℕ
  pub balance : ℤ
  pub balance_updated_time : ℕ
  pub priority : ℤ
  pub models : List String
  pub test_model : Option String
  pub model_options : Option (List ModelOption)
  pub deleted : Bool

abbrev pub first_model : List String → Option String
first_model [] = none
first_model (m ∷ ms) = some m

abbrev pub model_option : String → ModelOption
model_option m = record { key = m; text = m; value = m }

-- `processChannelData`
unfoldable pub process_channel_data : ChannelData → Channel
process_channel_data c =
    let models : List String = if str_eq c.models "" then [] else split_comma c.models in
    record {
      id = c.id;
      name = c.name;
      group = c.group;
      type = c.type;
      status = c.status;
      response_time = c.response_time;
      test_time = c.test_time;
      balance = c.balance;
      balance_updated_time = c.balance_updated_time;
      priority = c.priority;
      models = models;
      test_model = if str_eq c.models "" then some "" else first_model models;
      model_options = if str_eq c.models "" then none else some (map model_option models);
      deleted = false;
    }

-- `loadChannels`
unfoldable pub load_channels :
    (seen : Listing Channel)
    → (api : ℕ → Reply (List ChannelData)) → (start : ℕ) → Listing Channel
    → Outcome (Listing Channel)
load_channels seen api start s = elim (api start) [
  | rejected e ↦ threw e s
  | resolved a ↦ done (
      set_loading false (
        if a.success
        then place_rows seen.items start (map process_channel_data a.payload) s
        else complain a.message s))
]

-- `onPaginationChange`
unfoldable pub on_pagination_change :
    (seen : Listing Channel)
    → (api : ℕ → Reply (List ChannelData)) → (page : ℕ) → Listing Channel
    → Outcome (Listing Channel)
on_pagination_change seen api page s =
    (if page == (page_count (length seen.items) + 1)
      then load_channels seen api (page - 1) s
      else done s)
    >>= λ s'. done (set_active_page page s')

-- `refresh`
unfoldable pub refresh :
    (seen : Listing Channel)
    → (api : ℕ → Reply (List ChannelData)) → Listing Channel
    → Outcome (Listing Channel)
refresh seen api s = load_channels seen api (seen.active_page - 1) (set_loading true s)

-- The effect that runs when the table is mounted.
unfoldable pub mount :
    (seen : Listing Channel)
    → (api : ℕ → Reply (List ChannelData)) → Listing Channel
    → Outcome (Listing Channel)
mount seen api s = catch_error (load_channels seen api 0 s)

-- `searchChannels`
unfoldable pub search_channels :
    (seen : Listing Channel)
    → (api : ℕ → Reply (List ChannelData)) → (search : String → Reply (List ChannelData))
    → Listing Channel
    → Outcome (Listing Channel)
search_channels seen api search s =
    if str_eq seen.search_keyword ""
    then (load_channels seen api 0 s >>= λ s'. done (set_active_page 1 s'))
    else elim (search seen.search_keyword) [
      | rejected e ↦ threw e (set_searching true s)
      | resolved a ↦ done (
          set_searching false (
            if a.success
            then set_active_page 1 (set_rows (map process_channel_data a.payload) s)
            else complain a.message s))
    ]

-- `handleKeywordChange`
unfoldable pub handle_keyword_change : Js → String → Listing Channel → Listing Channel
handle_keyword_change js value s = record s { search_keyword = js.trim value }

-- The columns that can be sorted by.
pub data Column : Type 0 where
  by_id by_name by_group by_type by_status by_response_time by_balance by_priority : Column

abbrev pub cell : Column → Channel → Cell
cell by_id c = num (pos c.id)
cell by_name c = str c.name
cell by_group c = str c.group
cell by_type c = num (pos c.type)
cell by_status c = num (pos c.status)
cell by_response_time c = num (pos c.response_time)
cell by_balance c = num c.balance
cell by_priority c = num c.priority

abbrev pub channel_greater : Js → Column → Channel → Channel → Bool
channel_greater js key a b = cell_greater js (cell key a) (cell key b)

-- `sortChannel`
unfoldable pub sort_channel :
    Js → Column → (seen : Listing Channel) → Listing Channel → Listing Channel
sort_channel js key seen s = sort_rows (λ c. c.id) (channel_greater js key) seen.items s

-- The rows of the table's body.
unfoldable pub shown_channels : Listing Channel → List Channel
unfolding page_rows
shown_channels s = page_rows (λ c. c.deleted) s
