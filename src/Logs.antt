-- ===== src/Logs.antt =====
-- The table of logs (web-src/web/src/components/LogsTable.js): its rows, its filter, the handlers
-- that load, page, refresh, search and sort it, and the statistics behind its header.
pub mod Laws
pub mod Tests
use Prim.Native.String.{◌++◌}
use lite_nova.Prelude.{
  ℕ, ◌+◌, ◌-◌, Bool, true, false, not, String, List, [], ◌∷◌, Option, none, some,
}
use lite_nova.Prelude.{length, ◌==◌, ltb, str_eq, if◌then◌else◌}
use lite_nova.Prelude.Int.{ℤ, pos, ltb_ℤ}
use lite_nova.Effects.{
  success, Effect, Reply, rejected, resolved, Outcome, done, threw, type_error, ◌>>=◌,
  show_error_text,
}
use lite_nova.Paging.{page_count}
use lite_nova.Sorting.Columns.{Js, Cell, num, str, missing}
use lite_nova.Listing.{
  Listing, set_rows, place_rows, set_loading, set_searching, set_active_page, complain, sort_rows,
}

-- A row. The time of a log is in `created_at`.
pub record Log : Type 0 where
  pub id : ℕ
  pub created_at : ℕ
  pub channel : ℕ
  pub type : ℕ
  pub model_name : String
  pub username : String
  pub token_name : String
  pub prompt_tokens : ℕ
  pub completion_tokens : ℕ
  pub quota : ℤ
  pub elapsed_time : Option ℕ

-- `inputs`: the filter.
pub record Filter : Type 0 where
  pub username : String
  pub token_name : String
  pub model_name : String
  pub start_timestamp : String
  pub end_timestamp : String
  pub channel : String

pub record Stat : Type 0 where
  pub quota : ℤ
  pub token : ℤ

pub record LogsTable : Type 0 where
  pub listing : Listing Log
  pub show_stat : Bool
  pub log_type : ℕ
  pub detail_log : Option Log
  pub detail_open : Bool
  pub is_admin_user : Bool
  pub inputs : Filter
  pub stat : Stat

-- What the language writes into an address: a number, and `Date.parse(time) / 1000`.
pub record Texts : Type 0 where
  pub number_text : ℕ → String
  pub seconds_text : String → String

-- `getTypeName`
unfoldable pub get_type_name : ℕ → String
get_type_name type =
    if type == 1
    then "充值"
    else (if type == 2
        then "消费"
        else (if type == 3
            then "管理"
            else (if type == 4 then "系统" else (if type == 5 then "测试" else "未知"))))

-- The colours of a label of the elapsed time.
pub data Color : Type 0 where
  black green olive yellow orange red : Color

-- `getColorByElapsedTime`; `elapsedTime === undefined || 0` holds for no number.
unfoldable pub get_color_by_elapsed_time : Option ℕ → Color
get_color_by_elapsed_time none = black
get_color_by_elapsed_time (some time) =
    if ltb time 1000
    then green
    else (if ltb time 3000
        then olive
        else (if ltb time 5000 then yellow else (if ltb time 10000 then orange else red)))

-- The fields of the filter, by name.
pub data Field : Type 0 where
  username token_name model_name start_timestamp end_timestamp channel : Field

-- `handleInputChange`
unfoldable pub handle_input_change : Field → String → LogsTable → LogsTable
handle_input_change username v s = record s { inputs = record (s.inputs) { username = v } }
handle_input_change token_name v s = record s { inputs = record (s.inputs) { token_name = v } }
handle_input_change model_name v s = record s { inputs = record (s.inputs) { model_name = v } }
handle_input_change start_timestamp v s = record s {
  inputs = record (s.inputs) { start_timestamp = v };
}
handle_input_change end_timestamp v s = record s {
  inputs = record (s.inputs) { end_timestamp = v };
}
handle_input_change channel v s = record s { inputs = record (s.inputs) { channel = v } }

-- The part of an address that both kinds of user send, from the name of the token on.
unfoldable pub common_query : Texts → Filter → String
common_query w f =
    "&token_name="
    ++ (f.token_name
        ++ ("&model_name="
            ++ (f.model_name
                ++ ("&start_timestamp="
                    ++ (w.seconds_text f.start_timestamp
                        ++ ("&end_timestamp=" ++ w.seconds_text f.end_timestamp))))))

-- The address that `getLogSelfStat` asks.
unfoldable pub self_stat_url : Texts → LogsTable → String
self_stat_url w s =
    "/api/log/self/stat?type=" ++ (w.number_text s.log_type ++ common_query w s.inputs)

-- The address that `getLogStat` asks.
unfoldable pub stat_url : Texts → LogsTable → String
stat_url w s =
    "/api/log/stat?type="
    ++ (w.number_text s.log_type
        ++ ("&username="
            ++ (s.inputs.username
                ++ (common_query w s.inputs ++ ("&channel=" ++ s.inputs.channel)))))

-- `getLogSelfStat` and `getLogStat`, behind their address.
unfoldable pub take_stat : Reply Stat → LogsTable → Outcome LogsTable
take_stat (rejected e) s = threw e s
take_stat (resolved a) s = done (
    if a.success
    then record s { stat = a.payload }
    else record s { listing = complain a.message s.listing })

-- `handleEyeClick`
unfoldable pub handle_eye_click :
    Texts → (seen : LogsTable) → (api : String → Reply Stat) → LogsTable → Outcome LogsTable
handle_eye_click w seen api s =
    (if seen.show_stat
      then done s
      else take_stat (api (if seen.is_admin_user then stat_url w seen else self_stat_url w seen)) s)
    >>= λ s'. done (record s' { show_stat = not seen.show_stat })

-- `showUserTokenQuota`
unfoldable pub show_user_token_quota : LogsTable → Bool
show_user_token_quota s = not (s.log_type == 5)

-- The address that `loadLogs` asks for a page.
unfoldable pub logs_url : Texts → LogsTable → ℕ → String
logs_url w s start =
    if s.is_admin_user
    then "/api/log/?p="
      ++ (w.number_text start
          ++ ("&type="
              ++ (w.number_text s.log_type
                  ++ ("&username="
                      ++ (s.inputs.username
                          ++ (common_query w s.inputs ++ ("&channel=" ++ s.inputs.channel)))))))
    else "/api/log/self/?p="
      ++ (w.number_text start
          ++ ("&type=" ++ (w.number_text s.log_type ++ common_query w s.inputs)))

-- `loadLogs`
unfoldable pub load_logs :
    Texts
    → (seen : LogsTable) → (api : String → Reply (List Log)) → (start : ℕ) → Listing Log
    → Outcome (Listing Log)
load_logs w seen api start s = elim (api (logs_url w seen start)) [
  | rejected e ↦ threw e s
  | resolved a ↦ done (
      set_loading false (
        if a.success
        then place_rows seen.listing.items start a.payload s
        else complain a.message s))
]

-- `onPaginationChange`
unfoldable pub on_pagination_change :
    Texts
    → (seen : LogsTable) → (api : String → Reply (List Log)) → (page : ℕ) → Listing Log
    → Outcome (Listing Log)
on_pagination_change w seen api page s =
    (if page == (page_count (length seen.listing.items) + 1)
      then load_logs w seen api (page - 1) s
      else done s)
    >>= λ s'. done (set_active_page page s')

-- `refresh`, which is also the effect on `[logType]`.
unfoldable pub refresh :
    Texts
    → (seen : LogsTable) → (api : String → Reply (List Log)) → Listing Log
    → Outcome (Listing Log)
refresh w seen api s = load_logs w seen api 0 (set_active_page 1 (set_loading true s))

-- `searchLogs`
unfoldable pub search_logs :
    Texts
    → (seen : LogsTable) → (api : String → Reply (List Log)) → (query : String → Reply (List Log))
    → Listing Log
    → Outcome (Listing Log)
search_logs w seen api query s =
    if str_eq seen.listing.search_keyword ""
    then (load_logs w seen api 0 s >>= λ s'. done (set_active_page 1 s'))
    else elim (query seen.listing.search_keyword) [
      | rejected e ↦ threw e (set_searching true s)
      | resolved a ↦ done (
          set_searching false
            (if a.success then set_active_page 1 (set_rows a.payload s) else complain a.message s))
    ]

-- `handleKeywordChange`
unfoldable pub handle_keyword_change : Js → String → Listing Log → Listing Log
handle_keyword_change js value s = record s { search_keyword = js.trim value }

-- The columns that can be sorted by; `by_created_time` asks for a field that a log does not have.
pub data Column : Type 0 where
  by_created_time by_channel by_type by_model_name by_username by_token_name by_prompt_tokens
        by_completion_tokens by_quota :
      Column

abbrev pub cell : Column → Log → Cell
cell by_created_time x = missing
cell by_channel x = num (pos x.channel)
cell by_type x = num (pos x.type)
cell by_model_name x = str x.model_name
cell by_username x = str x.username
cell by_token_name x = str x.token_name
cell by_prompt_tokens x = num (pos x.prompt_tokens)
cell by_completion_tokens x = num (pos x.completion_tokens)
cell by_quota x = num x.quota

-- Whether the comparison function of the sort is positive: texts ascend, numbers descend, and
-- nothing else is told apart. A column is of texts in each of its rows or in none.
unfoldable pub log_cell_greater : Js → Cell → Cell → Bool
log_cell_greater js (str a) (str b) = js.locale_greater a b
log_cell_greater js (num a) (num b) = ltb_ℤ a b
log_cell_greater js _ _ = false

abbrev pub log_greater : Js → Column → Log → Log → Bool
log_greater js key a b = log_cell_greater js (cell key a) (cell key b)

-- `sortLog`
unfoldable pub sort_log : Js → Column → (seen : Listing Log) → Listing Log → Listing Log
sort_log js key seen s = sort_rows (λ x. x.id) (log_greater js key) seen.items s

-- `openDetailModal`, and the handler that closes it
unfoldable pub open_detail_modal : Log → LogsTable → LogsTable
open_detail_modal log s = record s { detail_log = some log; detail_open = true }

unfoldable pub close_detail_modal : LogsTable → LogsTable
close_detail_modal s = record s { detail_open = false }
