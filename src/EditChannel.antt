-- ===== src/EditChannel.antt =====
-- The form of a channel (web-src/web/src/pages/Channel/EditChannel.js).
pub mod Submit
pub mod Sent
pub mod Laws
pub mod Options
pub mod Fields
pub mod Tests
use Prim.Native.String.{◌++◌}
use lite_nova.Prelude.{ℕ, Bool, true, false, not, String, List, [], ◌∷◌, Option, none, some}
use lite_nova.Prelude.{map, push, ◌==◌, str_eq, if◌then◌else◌, ◌&&◌, ◌||◌}
use lite_nova.Prelude.Int.{ℤ}
use lite_nova.Prelude.Text.{split_comma, join_comma}
use lite_nova.Effects.{
  Effect, success, info, Failure, type_error, message_of, Reply, rejected, resolved, Outcome, done,
  threw, show_error_text,
}
use lite_nova.Channels.{ModelOption, model_option}

-- `config`; one that was parsed may lack fields, which are `undefined`.
pub record Config : Type 0 where
  pub region : Option String
  pub sk : Option String
  pub ak : Option String
  pub user_id : Option String
  pub vertex_ai_project_id : Option String
  pub vertex_ai_adc : Option String

-- `inputs`
pub record Inputs : Type 0 where
  pub name : String
  pub type : ℕ
  pub key : String
  pub base_url : String
  pub other : String
  pub model_mapping : String
  pub system_prompt : String
  pub models : List String
  pub groups : List String

-- A channel as it travels: the lists are texts, and the configuration is one text.
pub record Wire : Type 0 where
  pub name : String
  pub type : ℕ
  pub key : String
  pub base_url : String
  pub other : String
  pub model_mapping : String
  pub system_prompt : String
  pub models : String
  pub group : String
  pub config : String

pub data Request : Type 0 where
  put : (id : Option ℤ) → Wire → Request
  post : Wire → Request

-- What the form calls of the language and of helpers: `JSON.stringify` and `JSON.parse` of a
-- configuration, the indented form of a JSON text (`none` where the text is none), the error of
-- parsing, `verifyJSON`, `parseInt`, `trim`,
-- and the models of a type of channel.
pub record Host : Type 0 where
  pub stringify : Config → String
  pub parse : String → Option Config
  pub indent : String → Option String
  pub json_error : String → Failure
  pub verify_json : String → Bool
  pub parse_int : String → Option ℤ
  pub trim : String → String
  pub channel_models : ℕ → List String

-- The state, the requests that were sent, and the parameter of the route.
pub record ChannelForm : Type 0 where
  pub channel_id : Option String
  pub inputs : Inputs
  pub config : Config
  pub loading : Bool
  pub origin_model_options : List ModelOption
  pub model_options : List ModelOption
  pub group_options : List ModelOption
  pub basic_models : List String
  pub full_models : List String
  pub custom_model : String
  pub effects : List Effect
  pub sent : List Request

abbrev pub is_edit : ChannelForm → Bool
is_edit s = elim s.channel_id [ none ↦ false | some id ↦ true ]

-- `originInputs`
unfoldable pub origin_inputs : Inputs
origin_inputs = record {
  name = "";
  type = 1;
  key = "";
  base_url = "";
  other = "";
  model_mapping = "";
  system_prompt = "";
  models = [];
  groups = "default" ∷ [];
}

abbrev pub is_nil : {A : Type 0} → List A → Bool
is_nil [] = true
is_nil (x ∷ xs) = false

-- `''` is no entry, any other text is split.
unfoldable pub entries : String → List String
entries s = if str_eq s "" then [] else split_comma s

-- `''` stays, any other model mapping is parsed and indented.
unfoldable pub loaded_mapping : Host → String → Option String
loaded_mapping h m = if str_eq m "" then some "" else h.indent m

-- What becomes of the data of a loaded channel.
unfoldable pub loaded_inputs : Wire → String → Inputs
unfolding entries
loaded_inputs d mapping = record {
  name = d.name;
  type = d.type;
  key = d.key;
  base_url = d.base_url;
  other = d.other;
  model_mapping = mapping;
  system_prompt = d.system_prompt;
  models = entries d.models;
  groups = entries d.group;
}

-- `''` leaves the configuration, any other text is parsed.
unfoldable pub loaded_config : Host → String → Config → Option Config
loaded_config h text config = if str_eq text "" then some config else h.parse text

-- `loadChannel`, from `setInputs` on: a configuration that is no JSON throws behind it.
unfoldable pub take_channel : Host → Wire → String → ChannelForm → Outcome ChannelForm
take_channel h d mapping s = elim (loaded_config h d.config s.config) [
  | none ↦ threw (h.json_error d.config) (record s { inputs = loaded_inputs d mapping })
  | some config ↦ done (record s {
    inputs = loaded_inputs d mapping;
    config = config;
    basic_models = h.channel_models d.type;
    loading = false;
  })
]

-- `loadChannel`
unfoldable pub load_channel : Host → Reply Wire → ChannelForm → Outcome ChannelForm
load_channel h (rejected e) s = threw e s
load_channel h (resolved a) s = elim a.success [
  | true ↦ elim (loaded_mapping h a.payload.model_mapping) [
    | none ↦ threw (h.json_error a.payload.model_mapping) s
    | some mapping ↦ take_channel h a.payload mapping s
  ]
  | false ↦ done (record s { effects = show_error_text a.message s.effects; loading = false })
]

-- `showError(error.message)`
abbrev complain_of : Failure → ChannelForm → ChannelForm
complain_of e s = record s { effects = show_error_text (message_of e) s.effects }

-- `fetchModels`, and `fetchGroups`; `none` is a reply without data, which is a TypeError.
unfoldable pub fetch_models : Reply (Option (List String)) → ChannelForm → ChannelForm
fetch_models (rejected e) s = complain_of e s
fetch_models (resolved a) s = elim a.payload [
  | none ↦ complain_of type_error s
  | some models ↦ record s { origin_model_options = map model_option models; full_models = models }
]

unfoldable pub fetch_groups : Reply (Option (List String)) → ChannelForm → ChannelForm
fetch_groups (rejected e) s = complain_of e s
fetch_groups (resolved a) s = elim a.payload [
  | none ↦ complain_of type_error s
  | some groups ↦ record s { group_options = map model_option groups }
]
