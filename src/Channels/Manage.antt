-- ===== src/Channels/Manage.antt =====
-- The handlers of web-src/web/src/components/ChannelsTable.js that act on single rows, and the
-- rest of the component's state.
use lite_nova.Prelude.{ℕ, ◌*◌, Bool, true, false, not, String, Option, none, some}
use lite_nova.Prelude.{List, str_eq, if◌then◌else◌}
use lite_nova.Prelude.Int.{ℤ, pos, negsuc}
use lite_nova.Effects.{
  success, info, Reply, rejected, resolved, Outcome, done, threw, type_error, ◌>>=◌,
}
use lite_nova.Paging.{real_idx}
use lite_nova.Sorting.Columns.{Js}
use lite_nova.Listing.{Listing, set_row, show, complain}
use lite_nova.Channels.{ChannelData, Channel, refresh}

-- The actions of `manageChannel`; the last two carry the text of the input field.
pub data Action : Type 0 where
  delete enable disable : Action
  priority weight : String → Action

-- The calls of the API that `manageChannel` makes. A number is `none` where it is NaN.
pub data Request : Type 0 where
  delete_channel : (id : ℕ) → Request
  put_status : (id status : ℕ) → Request
  put_priority put_weight : (id : ℕ) → Option ℤ → Request

-- `if (data.weight < 0) data.weight = 0`
abbrev pub clamp_weight : Option ℤ → Option ℤ
clamp_weight none = none
clamp_weight (some (pos n)) = some (pos n)
clamp_weight (some (negsuc n)) = some (pos 0)

-- The `switch` of `manageChannel`: the request, or `none` where the handler returns.
unfoldable pub manage_request : Js → (id : ℕ) → Action → Option Request
manage_request js id delete = some (delete_channel id)
manage_request js id enable = some (put_status id 1)
manage_request js id disable = some (put_status id 2)
manage_request js id (priority value) =
    if str_eq value "" then none else some (put_priority id (js.parse_int value))
manage_request js id (weight value) =
    if str_eq value "" then none else some (put_weight id (clamp_weight (js.parse_int value)))

abbrev pub mark_deleted : Channel → Channel
mark_deleted c = record c { deleted = true }

abbrev pub set_status : ℕ → Channel → Channel
set_status status c = record c { status = status }

-- What a successful reply changes: the row is marked as deleted, or takes the status that the
-- server sent; without one the handler throws.
unfoldable pub apply_action :
    (seen : Listing Channel)
    → Action
    → (idx : ℕ) → Option ChannelData
    → Listing Channel
    → Outcome (Listing Channel)
apply_action seen delete idx sent s =
    set_row seen.items (real_idx seen.active_page idx) mark_deleted s
apply_action seen action idx none s = threw type_error s
apply_action seen action idx (some c) s =
    set_row seen.items (real_idx seen.active_page idx) (set_status c.status) s

-- `manageChannel`
unfoldable pub manage_channel :
    Js
    → (seen : Listing Channel) → (api : Request → Reply (Option ChannelData)) → (id : ℕ) → Action
    → (idx : ℕ) → Listing Channel
    → Outcome (Listing Channel)
manage_channel js seen api id action idx s = elim (manage_request js id action) [
  | none ↦ done s
  | some request ↦ elim (api request) [
    | rejected e ↦ threw e s
    | resolved a ↦
        if a.success
        then apply_action seen action idx a.payload
            (show (success "channel.messages.operation_success") s)
        else done (complain a.message s)
  ]
]

-- `switchTestModel`
unfoldable pub switch_test_model :
    (seen : Listing Channel) → (idx : ℕ) → String → Listing Channel → Outcome (Listing Channel)
switch_test_model seen idx model s =
    set_row seen.items (real_idx seen.active_page idx) (λ c. record c { test_model = some model }) s

-- The two fields that `testChannel` writes; `now` is `Date.now() / 1000`, which is counted in
-- thousandths, as is the `time` in seconds of the reply.
abbrev pub tested : (time now : ℕ) → Channel → Channel
tested time now c = record c { response_time = time * 1000; test_time = now }

-- `testChannel`: on success the row is written before the message and once more behind it.
unfoldable pub test_channel :
    (seen : Listing Channel)
    → (api : ℕ → Reply ℕ) → (id idx : ℕ) → (now now' : ℕ) → Listing Channel
    → Outcome (Listing Channel)
test_channel seen api id idx now now' s = elim (api id) [
  | rejected e ↦ threw e s
  | resolved a ↦
      (if a.success
        then (set_row seen.items (real_idx seen.active_page idx) (tested a.payload now) s >>= λ s'.
            done (show (success "channel.messages.test_success") s'))
        else done (complain a.message s))
      >>= λ s'. set_row seen.items (real_idx seen.active_page idx) (tested a.payload now') s'
]

-- `testChannels`
unfoldable pub test_channels :
    (api : String → Reply (Unit {0}))
    → (scope : String) → Listing Channel
    → Outcome (Listing Channel)
test_channels api scope s = elim (api scope) [
  | rejected e ↦ threw e s
  | resolved a ↦ done (
      if a.success then show (info "channel.messages.test_all_started") s else complain a.message s)
]

-- `deleteAllDisabledChannels`
unfoldable pub delete_all_disabled_channels :
    (seen : Listing Channel)
    → Reply ℕ
    → (api : ℕ → Reply (List ChannelData)) → Listing Channel
    → Outcome (Listing Channel)
delete_all_disabled_channels seen (rejected e) api s = threw e s
delete_all_disabled_channels seen (resolved a) api s =
    if a.success
    then refresh seen api (show (success "channel.messages.delete_disabled_success") s)
    else done (complain a.message s)

-- `updateChannelBalance`
unfoldable pub update_channel_balance :
    (seen : Listing Channel)
    → (api : ℕ → Reply ℤ) → (id idx now : ℕ) → Listing Channel
    → Outcome (Listing Channel)
update_channel_balance seen api id idx now s = elim (api id) [
  | rejected e ↦ threw e s
  | resolved a ↦
      if a.success
      then (set_row seen.items (real_idx seen.active_page idx)
            (λ c. record c { balance = a.payload; balance_updated_time = now }) s
          >>= λ s'. done (show (success "channel.messages.balance_update_success") s'))
      else done (complain a.message s)
]

-- The state of the component: the listing, and what concerns no row. The two last fields are the
-- items of the local storage that it reads and writes.
pub record ChannelsTable : Type 0 where
  pub listing : Listing Channel
  pub updating_balance : Bool
  pub show_prompt : Bool
  pub show_detail : Bool
  pub stored_show_detail : Option String
  pub stored_prompt : Option String

-- `isShowDetail`
unfoldable pub is_show_detail : Option String → Bool
is_show_detail none = false
is_show_detail (some text) = str_eq text "true"

-- `shouldShowPrompt`: no item, or an empty one
unfoldable pub should_show_prompt : Option String → Bool
should_show_prompt none = true
should_show_prompt (some text) = str_eq text ""

-- `(!showDetail).toString()`
abbrev pub bool_text : Bool → String
bool_text true = "true"
bool_text false = "false"

-- `toggleShowDetail`
unfoldable pub toggle_show_detail : (seen : ChannelsTable) → ChannelsTable → ChannelsTable
toggle_show_detail seen s = record s {
  show_detail = not seen.show_detail;
  stored_show_detail = some (bool_text (not seen.show_detail));
}

-- The handler that dismisses the prompt, with `setPromptShown`.
unfoldable pub dismiss_prompt : ChannelsTable → ChannelsTable
dismiss_prompt s = record s { show_prompt = false; stored_prompt = some "true" }

-- `updateAllChannelsBalance`
unfoldable pub update_all_channels_balance :
    Reply (Unit {0}) → ChannelsTable → Outcome ChannelsTable
update_all_channels_balance (rejected e) s = threw e (record s { updating_balance = true })
update_all_channels_balance (resolved a) s = done (record s {
  listing =
      if a.success
      then show (info "channel.messages.all_balance_updated") s.listing
      else complain a.message s.listing;
  updating_balance = false;
})

-- The state of a new mount: what the local storage holds.
unfoldable pub remount : ChannelsTable → ChannelsTable
unfolding is_show_detail should_show_prompt
remount s = record {
  listing = record {
    heap = s.listing.heap;
    items = List.[];
    loading = true;
    active_page = 1;
    search_keyword = "";
    searching = false;
    effects = s.listing.effects;
  };
  updating_balance = false;
  show_prompt = should_show_prompt s.stored_prompt;
  show_detail = is_show_detail s.stored_show_detail;
  stored_show_detail = s.stored_show_detail;
  stored_prompt = s.stored_prompt;
}
