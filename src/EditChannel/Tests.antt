-- ===== src/EditChannel/Tests.antt =====
-- The theorems about the form of a channel at a concrete form.
use lite_nova.Prelude.{
  ◌≡◌, ◌≢◌, ◌⊎◌, inr, refl, true, false, String, [], ◌∷◌, none, some, str_eq, if◌then◌else◌,
}
use lite_nova.Prelude.Int.{pos}
use lite_nova.Effects.{Reply, type_error, resolved, done, after}
use lite_nova.Channels.Rows.{answer_ok}
use lite_nova.EditChannel.{
  Config, Wire, Request, put, Host, ChannelForm, load_channel, loaded_mapping, loaded_config,
}
use lite_nova.EditChannel.Submit.{request_of, submit}
use lite_nova.EditChannel.Sent.{IsKey, IsComplete, IsSent}
use lite_nova.EditChannel.Laws.{submit-sent, submit-load_channel}

abbrev no_config : Config
no_config = record {
  region = some "";
  sk = some "";
  ak = some "";
  user_id = some "";
  vertex_ai_project_id = some "";
  vertex_ai_adc = some "";
}

abbrev host : Host
host = record {
  stringify = λ c. "{}";
  parse = λ s. some no_config;
  indent = λ s. some s;
  json_error = λ s. type_error;
  verify_json = λ s. true;
  parse_int = λ s. if str_eq s "3" then some (pos 3) else none;
  trim = λ s. s;
  channel_models = λ n. [];
}

abbrev accept : Request → Reply (Unit {0})
accept q = resolved (answer_ok "" tt)

abbrev form : ChannelForm
form = record {
  channel_id = some "3";
  inputs = record {
    name = "main";
    type = 1;
    key = "sk";
    base_url = "https://a.example/";
    other = "";
    model_mapping = "";
    system_prompt = "";
    models = "gpt-4" ∷ [];
    groups = "default" ∷ [];
  };
  config = no_config;
  loading = false;
  origin_model_options = [];
  model_options = [];
  group_options = [];
  basic_models = [];
  full_models = [];
  custom_model = "own";
  effects = [];
  sent = [];
}

abbrev wire : Wire
wire = record {
  name = "main";
  type = 1;
  key = "";
  base_url = "";
  other = "";
  model_mapping = "{}";
  system_prompt = "";
  models = "gpt-4,own";
  group = "default,vip";
  config = "";
}

submit-sent_example :
    (k : String) × IsKey no_config "sk" k
    × ((IsComplete host true k form.inputs
          × ((w : Wire) × IsSent host no_config k form.inputs w
              × ((after (submit host accept form)).sent ≡ request_of host (some "3") w ∷ [])))
        ⊎ ((¬ IsComplete host true k form.inputs) × ((after (submit host accept form)).sent ≡ [])))
submit-sent_example = submit-sent host accept form

named : wire.models ≢ ""
named e = cc

submit-load_channel_example :
    (t : ChannelForm) × (w : Wire) × (load_channel host (resolved (answer_ok "" wire)) form
      ≡ done t)
    × ((after (submit host accept t)).sent ≡ put (some (pos 3)) w ∷ [])
    × (w.name ≡ "main")
    × (w.type ≡ 1)
    × (w.system_prompt ≡ "")
    × (w.models ≡ "gpt-4,own")
    × (w.group ≡ "default,vip")
unfolding loaded_mapping loaded_config
submit-load_channel_example =
    submit-load_channel host accept wire form "" refl (inr named) refl (inr refl) refl

not_blank : ◌≢◌ {A = String} "own" ""
not_blank e = cc
