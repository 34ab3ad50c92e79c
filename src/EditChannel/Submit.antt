-- ===== src/EditChannel/Submit.antt =====
-- `submit` of the form of a channel.
use Prim.Native.Char.{code}
use Prim.Native.String.{◌++◌}
use lite_nova.Prelude.{Bool, true, false, not, String, ◌∷◌, Option, none, some}
use lite_nova.Prelude.{◌==◌, str_eq, if◌then◌else◌, ◌&&◌, ◌||◌}
use lite_nova.Prelude.Text.{join_comma}
use lite_nova.Effects.{
  success, info, Reply, rejected, resolved, Outcome, done, threw, show_error_text,
}
use lite_nova.EditChannel.{
  Config, Inputs, Wire, Request, put, post, Host, ChannelForm, is_edit, is_nil, origin_inputs,
}

-- `removeTrailingSlash`, and what `submit` does to a base URL that is not empty.
unfoldable pub remove_trailing_slash : String → String
remove_trailing_slash String.[] = ""
remove_trailing_slash (String.◌∷◌ c String.[]) =
    if code c == b'/' then "" else String.◌∷◌ c String.[]
remove_trailing_slash (String.◌∷◌ c (String.◌∷◌ d s)) =
    String.◌∷◌ c (remove_trailing_slash (String.◌∷◌ d s))

-- `v !== ''`, which holds of `undefined`.
abbrev pub is_given : Option String → Bool
is_given none = true
is_given (some v) = not (str_eq v "")

-- `${v}`
abbrev pub written : Option String → String
written none = "undefined"
written (some v) = v

-- The key that is put together from the configuration where none was given.
unfoldable pub compose_key : Config → String → String
compose_key c key =
    if str_eq key ""
    then (if is_given c.ak && (is_given c.sk && is_given c.region)
        then written c.ak ++ ("|" ++ (written c.sk ++ ("|" ++ written c.region)))
        else (if is_given c.region && (is_given c.vertex_ai_project_id && is_given c.vertex_ai_adc)
            then written c.region
              ++ ("|" ++ (written c.vertex_ai_project_id ++ ("|" ++ written c.vertex_ai_adc)))
            else key))
    else key

-- The message of the first check that fails; `none` where the form is sent.
unfoldable pub check : Host → Bool → Inputs → Option String
check h edit i =
    if not edit && (str_eq i.name "" || str_eq i.key "")
    then some "channel.edit.messages.name_required"
    else (if not (i.type == 43) && is_nil i.models
        then some "channel.edit.messages.models_required"
        else (if not (str_eq i.model_mapping "") && not (h.verify_json i.model_mapping)
            then some "channel.edit.messages.model_mapping_invalid"
            else none))

-- `localInputs` as it is sent.
unfoldable pub to_wire : Host → Config → Inputs → Wire
unfolding remove_trailing_slash
to_wire h c i = record {
  name = i.name;
  type = i.type;
  key = if str_eq i.key "undefined|undefined|undefined" then "" else i.key;
  base_url = remove_trailing_slash i.base_url;
  other = if i.type == 3 && str_eq i.other "" then "2024-03-01-preview" else i.other;
  model_mapping = i.model_mapping;
  system_prompt = i.system_prompt;
  models = join_comma i.models;
  group = join_comma i.groups;
  config = h.stringify c;
}

unfoldable pub request_of : Host → Option String → Wire → Request
request_of h none wire = post wire
request_of h (some id) wire = put (h.parse_int id) wire

-- The answer of the server to a submitted form.
unfoldable pub settle_submit : Reply (Unit {0}) → ChannelForm → Outcome ChannelForm
settle_submit (rejected e) s = threw e s
settle_submit (resolved a) s = elim a.success [
  | true ↦ elim s.channel_id [
    | some id ↦
        done (record s { effects = success "channel.edit.messages.update_success" ∷ s.effects })
    | none ↦ done (record s {
      effects = success "channel.edit.messages.create_success" ∷ s.effects;
      inputs = origin_inputs;
    })
  ]
  | false ↦ done (record s { effects = show_error_text a.message s.effects })
]

-- `submit`: a composed key is written into the inputs in place.
unfoldable pub submit :
    Host → (api : Request → Reply (Unit {0})) → ChannelForm → Outcome ChannelForm
submit h api s =
    let i = record (s.inputs) { key = compose_key s.config s.inputs.key } in
    elim (check h (is_edit s) i) [
      | some message ↦ done (record s { inputs = i; effects = info message ∷ s.effects })
      | none ↦
          let request = request_of h s.channel_id (to_wire h s.config i) in
          settle_submit (api request) (record s { inputs = i; sent = request ∷ s.sent })
    ]
