-- ===== src/EditToken.antt =====
-- The form of a token (web-src/web/src/pages/Token/EditToken.js). The object of the inputs is
-- shared: `submit` writes its fields in place, and the state keeps what it wrote.
pub mod Edits
pub mod Laws
pub mod Roundtrip
pub mod Submit
pub mod Tests
use lite_nova.Prelude.{
  ℕ, ◌+◌, ◌*◌, ◌/◌, Bool, true, false, not, String, List, [], ◌∷◌, Option, none, some,
}
use lite_nova.Prelude.{map, ◌==◌, str_eq, if◌then◌else◌, ◌&&◌}
use lite_nova.Prelude.Int.{ℤ, pos, negsuc}
use lite_nova.Prelude.Text.{split_comma, join_comma}
use lite_nova.Times.{LocalCalendar, timestamp2string}
use lite_nova.Effects.{
  Effect, success, message_of, Failure, text, error_object, type_error, Reply, rejected, resolved,
  Outcome, done, threw, show_error_text,
}
use lite_nova.Channels.{ModelOption, model_option}

-- What the form calls of the language: `parseInt` and `Date.parse` of a text, in milliseconds, the
-- local calendar, and `String` of a number.
pub record Clock : Type 0 where
  pub parse_int : String → Option ℤ
  pub date_parse : String → Option ℕ
  pub calendar : LocalCalendar

-- `remain_quota`: a number, `NaN` too, or the text of the input field.
pub data Quota : Type 0 where
  number : Option ℤ → Quota
  typed : String → Quota

-- `expired_time`: -1, a text, or the seconds that `submit` wrote.
pub data Expiry : Type 0 where
  never : Expiry
  at : String → Expiry
  seconds : ℕ → Expiry

-- `models`: the list of the drop-down, or the text that `submit` wrote.
pub data Models : Type 0 where
  chosen : List String → Models
  joined : String → Models

pub record Inputs : Type 0 where
  pub name : String
  pub remain_quota : Quota
  pub expired_time : Expiry
  pub unlimited_quota : Bool
  pub models : Models
  pub subnet : String

-- A token as the server sends it; `expired_time` is `none` for -1.
pub record TokenData : Type 0 where
  pub name : String
  pub remain_quota : ℤ
  pub expired_time : Option ℕ
  pub unlimited_quota : Bool
  pub models : String
  pub subnet : String

-- What is sent to the server: `put` for a token that exists, `post` for a new one.
pub record Body : Type 0 where
  pub name : String
  pub remain_quota : Option ℤ
  pub expired_time : Option ℕ
  pub unlimited_quota : Bool
  pub models : String
  pub subnet : String

pub data Request : Type 0 where
  put : (id : Option ℤ) → Body → Request
  post : Body → Request

-- The state, the requests that were sent, and the parameter of the route.
pub record TokenForm : Type 0 where
  pub token_id : Option String
  pub inputs : Inputs
  pub loading : Bool
  pub model_options : List ModelOption
  pub effects : List Effect
  pub sent : List Request

abbrev pub is_some : {A : Type 0} → Option A → Bool
is_some none = false
is_some (some a) = true

-- `isEdit`
abbrev pub is_edit : TokenForm → Bool
is_edit s = is_some s.token_id

-- `originInputs`
unfoldable pub origin_inputs : Bool → Inputs
origin_inputs edit = record {
  name = "";
  remain_quota = number (some (pos (if edit then 0 else 500000)));
  expired_time = never;
  unlimited_quota = false;
  models = chosen [];
  subnet = "";
}

-- `showError(message || other)`
abbrev pub complain_or : String → String → TokenForm → TokenForm
complain_or message other s = record s {
  effects = show_error_text (if str_eq message "" then other else message) s.effects;
}

-- What becomes of the data of a loaded token.
unfoldable pub loaded_inputs : Clock → TokenData → Inputs
unfolding timestamp2string
loaded_inputs c d = record {
  name = d.name;
  remain_quota = number (some d.remain_quota);
  expired_time = elim d.expired_time [
    | none ↦ never
    | some t ↦ at (timestamp2string c.calendar (t * 1000))
  ];
  unlimited_quota = d.unlimited_quota;
  models = chosen (if str_eq d.models "" then [] else split_comma d.models);
  subnet = d.subnet;
}

-- `if (success && data) setInputs(data) else showError(…)`
unfoldable pub take_token : Clock → Bool → String → Option TokenData → TokenForm → TokenForm
unfolding loaded_inputs
take_token c true message (some d) s = record s { inputs = loaded_inputs c d }
take_token c _ message _ s = complain_or message "Failed to load token" s

-- `loadToken`; it never throws.
unfoldable pub load_token : Clock → Reply (Option TokenData) → TokenForm → TokenForm
unfolding take_token
load_token c (rejected e) s = record (complain_or (message_of e) "Network error" s) {
  loading = false;
}
load_token c (resolved a) s = record (take_token c a.success a.message a.payload s) {
  loading = false;
}

-- `if (success && data) setModelOptions(…) else showError(…)`
unfoldable pub take_models : Bool → String → Option (List String) → TokenForm → TokenForm
take_models true message (some ms) s = record s { model_options = map model_option ms }
take_models _ message _ s = complain_or message "Failed to load models" s

-- `loadAvailableModels`
unfoldable pub load_available_models : Reply (Option (List String)) → TokenForm → TokenForm
unfolding take_models
load_available_models (rejected e) s = complain_or (message_of e) "Network error" s
load_available_models (resolved a) s = take_models a.success a.message a.payload s

-- `handleInputChange`, for the fields of the form.
pub data Change : Type 0 where
  to_name to_quota to_expired_time to_subnet : String → Change
  to_models : List String → Change

unfoldable pub handle_input_change : Change → TokenForm → TokenForm
handle_input_change (to_name v) s = record s { inputs = record (s.inputs) { name = v } }
handle_input_change (to_quota v) s = record s {
  inputs = record (s.inputs) { remain_quota = typed v };
}
handle_input_change (to_expired_time v) s = record s {
  inputs = record (s.inputs) { expired_time = at v };
}
handle_input_change (to_subnet v) s = record s { inputs = record (s.inputs) { subnet = v } }
handle_input_change (to_models v) s = record s { inputs = record (s.inputs) { models = chosen v } }

-- The seconds that `setExpiredTime` adds.
unfoldable pub offset : (month day hour minute : ℕ) → ℕ
offset month day hour minute =
    month * 30 * 24 * 60 * 60 + day * 24 * 60 * 60 + hour * 60 * 60 + minute * 60

-- `setExpiredTime`; `now` is `getTime()`, in milliseconds.
unfoldable pub set_expired_time : Clock → (now month day hour minute : ℕ) → TokenForm → TokenForm
unfolding offset timestamp2string
set_expired_time c now month day hour minute s = record s {
  inputs = record (s.inputs) {
    expired_time =
        if offset month day hour minute == 0
        then never
        else at (timestamp2string c.calendar (now + 1000 * offset month day hour minute));
  };
}

-- `setUnlimitedQuota`
unfoldable pub set_unlimited_quota : TokenForm → TokenForm
set_unlimited_quota s = record s {
  inputs = record (s.inputs) { unlimited_quota = not s.inputs.unlimited_quota };
}
