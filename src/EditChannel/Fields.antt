-- ===== src/EditChannel/Fields.antt =====
-- The inputs of the form of a channel, the options of its models, and the models that are added.
use lite_nova.Prelude.{ℕ, Bool, false, String, List, [], ◌∷◌, some}
use lite_nova.Prelude.{push, str_eq, if◌then◌else◌, ◌||◌}
use lite_nova.Channels.{ModelOption, model_option}
use lite_nova.EditChannel.{Host, ChannelForm, is_nil}

-- `handleConfigChange`, for the fields of the configuration.
pub data ConfigField : Type 0 where
  region sk ak user_id vertex_ai_project_id vertex_ai_adc : ConfigField

unfoldable pub handle_config_change : ConfigField → String → ChannelForm → ChannelForm
handle_config_change region v s = record s { config = record (s.config) { region = some v } }
handle_config_change sk v s = record s { config = record (s.config) { sk = some v } }
handle_config_change ak v s = record s { config = record (s.config) { ak = some v } }
handle_config_change user_id v s = record s { config = record (s.config) { user_id = some v } }
handle_config_change vertex_ai_project_id v s = record s {
  config = record (s.config) { vertex_ai_project_id = some v };
}
handle_config_change vertex_ai_adc v s = record s {
  config = record (s.config) { vertex_ai_adc = some v };
}

-- `handleInputChange`, for the fields of the form.
pub data Change : Type 0 where
  to_name to_key to_base_url to_other to_model_mapping to_system_prompt : String → Change
  to_type : ℕ → Change
  to_models to_groups : List String → Change

-- The part of `handleInputChange` that a new type brings: `seen` is the captured form.
unfoldable pub choose_type : Host → (seen : ChannelForm) → ℕ → ChannelForm → ChannelForm
choose_type h seen type s = record s {
  inputs = record (s.inputs) {
    type = type;
    models = if is_nil seen.inputs.models then h.channel_models type else s.inputs.models;
  };
  basic_models = h.channel_models type;
}

unfoldable pub handle_input_change :
    Host → (seen : ChannelForm) → Change → ChannelForm → ChannelForm
unfolding choose_type
handle_input_change h seen (to_name v) s = record s { inputs = record (s.inputs) { name = v } }
handle_input_change h seen (to_key v) s = record s { inputs = record (s.inputs) { key = v } }
handle_input_change h seen (to_base_url v) s = record s {
  inputs = record (s.inputs) { base_url = v };
}
handle_input_change h seen (to_other v) s = record s { inputs = record (s.inputs) { other = v } }
handle_input_change h seen (to_model_mapping v) s = record s {
  inputs = record (s.inputs) { model_mapping = v };
}
handle_input_change h seen (to_system_prompt v) s = record s {
  inputs = record (s.inputs) { system_prompt = v };
}
handle_input_change h seen (to_type v) s = choose_type h seen v s
handle_input_change h seen (to_models v) s = record s { inputs = record (s.inputs) { models = v } }
handle_input_change h seen (to_groups v) s = record s { inputs = record (s.inputs) { groups = v } }

-- `localModelOptions.find((option) => option.key === model)`
unfoldable pub has_option : String → List ModelOption → Bool
has_option model [] = false
has_option model (o ∷ os) = str_eq o.key model || has_option model os

-- The loop of the effect that extends the options by the models without one.
unfoldable pub extend_options : List String → List ModelOption → List ModelOption
unfolding has_option
extend_options [] options = options
extend_options (m ∷ ms) options =
    extend_options ms (if has_option m options then options else push options (model_option m))

-- The effect on `[originModelOptions, inputs.models]`.
unfoldable pub refresh_model_options : ChannelForm → ChannelForm
unfolding extend_options
refresh_model_options s = record s {
  model_options = extend_options s.inputs.models s.origin_model_options;
}

-- `inputs.models.includes(model)`
unfoldable pub includes : List String → String → Bool
includes [] m = false
includes (x ∷ xs) m = str_eq x m || includes xs m

-- `addCustomModel`
unfoldable pub add_custom_model : Host → ChannelForm → ChannelForm
unfolding includes
add_custom_model h s =
    if str_eq (h.trim s.custom_model) ""
    then s
    else (if includes s.inputs.models s.custom_model then s else record s {
      model_options = push s.model_options (model_option s.custom_model);
      custom_model = "";
      inputs = record (s.inputs) { models = push s.inputs.models s.custom_model };
    })
