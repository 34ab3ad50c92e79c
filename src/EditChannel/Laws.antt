-- ===== src/EditChannel/Laws.antt =====
-- What the form of a channel sends, and when; its lists of models and of options.
use lite_nova.Prelude.{
  ◌≡◌, ◌≢◌, ◌⊎◌, inl, inr, refl, sym, ap, ◌∙◌, Bool, true, false, String, ◌∷◌, none, some, arith,
  Bool-cases, Option-cases, str_eq, eq_iff,
}
use lite_nova.Prelude.Text.{join_comma, split_comma-cons, join_comma-split_comma}
use lite_nova.Effects.{Reply, rejected, resolved, done, after}
use lite_nova.Channels.Rows.{answer_ok}
use lite_nova.EditChannel.{
  Config, loaded_mapping, loaded_config, take_channel, Inputs, Wire, Request, put, Host,
  ChannelForm, is_edit, is_nil, entries, loaded_inputs, load_channel,
}
use lite_nova.EditChannel.Sent.{IsKey, IsComplete, IsSent, compose_key-IsKey, to_wire-IsSent}
use lite_nova.EditChannel.Submit.{compose_key, check, to_wire, request_of, settle_submit, submit}

settle_submit-sent :
    (r : Reply (Unit {0})) (s : ChannelForm) → (after (settle_submit r s)).sent ≡ s.sent
unfolding settle_submit
settle_submit-sent (rejected e) s = refl
settle_submit-sent (resolved a) s = ground arith

-- The inputs after the key was composed.
abbrev pub keyed : ChannelForm → Inputs
keyed s = record (s.inputs) { key = compose_key s.config s.inputs.key }

check_sound :
    (h : Host) (edit : Bool) (k : String) (i : Inputs)
    → check h edit (record i { key = k }) ≡ none
    → IsComplete h edit k i
unfolding check
check_sound h edit k i e = ground (arith, eq_iff i.name "", eq_iff k "", eq_iff i.model_mapping "")

check_complete :
    (h : Host) (edit : Bool) (k : String) (i : Inputs)
    → IsComplete h edit k i
    → check h edit (record i { key = k }) ≡ none
unfolding check
check_complete h edit k i (a, b, c) =
    ground (arith, eq_iff i.name "", eq_iff k "", eq_iff i.model_mapping "")

submit-checked :
    (h : Host) (api : Request → Reply (Unit {0})) (s : ChannelForm)
    → check h (is_edit s) (keyed s) ≡ none
    → (after (submit h api s)).sent
      ≡ request_of h s.channel_id (to_wire h s.config (keyed s)) ∷ s.sent
unfolding submit
submit-checked h api s e = rw (e, submit) (settle_submit-sent _ _)

submit-unchecked :
    (h : Host) (api : Request → Reply (Unit {0})) (s : ChannelForm) (message : String)
    → check h (is_edit s) (keyed s) ≡ some message
    → (after (submit h api s)).sent ≡ s.sent
unfolding submit
submit-unchecked h api s message e = rw (e, submit)

-- With the key that was typed or the one that the configuration gives, `submit` sends exactly one
-- request if the form is complete, with every field as it is in the form, the lists joined, the
-- configuration as a text, the base URL without the slash that it ends in, and the default in
-- place of a missing API version; of an incomplete form it sends nothing.
pub submit-sent :
    (h : Host) (api : Request → Reply (Unit {0})) (s : ChannelForm)
    → (k : String) × IsKey s.config s.inputs.key k
      × ((IsComplete h (is_edit s) k s.inputs
            × ((w : Wire) × IsSent h s.config k s.inputs w
                × ((after (submit h api s)).sent ≡ request_of h s.channel_id w ∷ s.sent)))
          ⊎ ((¬ IsComplete h (is_edit s) k s.inputs) × ((after (submit h api s)).sent ≡ s.sent)))
submit-sent h api s =
    let k = compose_key s.config s.inputs.key in
    (
      k,
      compose_key-IsKey s.config s.inputs.key,
      elim (Option-cases (check h (is_edit s) (keyed s))) [
        | inl e ↦ inl (
          check_sound h (is_edit s) k s.inputs e,
          (
            to_wire h s.config (keyed s),
            to_wire-IsSent h s.config k s.inputs,
            submit-checked h api s e,
          ),
        )
        | inr (message, e) ↦ inr (
          λ c. let q = check_complete h (is_edit s) k s.inputs c in cc (q, e),
          submit-unchecked h api s message e,
        )
      ],
    )

join_entries : (m : String) → join_comma (entries m) ≡ m
unfolding entries
join_entries m = elim (Bool-cases (str_eq m "")) [
  | inl e ↦ rw e (unfold join_comma in sym ((eq_iff m "").0 e))
  | inr e ↦ rw e (join_comma-split_comma m)
]

entries-is_nil : (m : String) → m ≢ "" → is_nil (entries m) ≡ false
unfolding entries
entries-is_nil m n =
    let (p, ps, q) = split_comma-cons m in
    elim (Bool-cases (str_eq m "")) [ inl e ↦ absurd (n ((eq_iff m "").0 e)) | inr e ↦ rw (e, q) ]

is_edit_of_some : (s : ChannelForm) {id : String} → s.channel_id ≡ some id → is_edit s ≡ true
is_edit_of_some s e = ground arith

load_channel-eq-done :
    (h : Host) (d : Wire) (s : ChannelForm) (message : String) {mapping : String} {config : Config}
    → loaded_mapping h d.model_mapping ≡ some mapping
    → loaded_config h d.config s.config ≡ some config
    → load_channel h (resolved (answer_ok message d)) s
      ≡ done (record s {
        inputs = loaded_inputs d mapping;
        config = config;
        basic_models = h.channel_models d.type;
        loading = false;
      })
unfolding load_channel take_channel
load_channel-eq-done h d s message m c = rw (m, load_channel, c, take_channel) refl

-- A channel that is loaded and submitted unchanged goes back with its name, type, prompt, models
-- and groups, if its model mapping and its configuration are empty or JSON, and it has a model
-- unless its type needs none; indented JSON is JSON.
pub submit-load_channel :
    (h : Host) (api : Request → Reply (Unit {0})) (d : Wire) (s : ChannelForm) (message : String)
    {id mapping : String} {config : Config}
    → s.channel_id ≡ some id
    → (d.type ≡ 43) ⊎ (d.models ≢ "")
    → loaded_mapping h d.model_mapping ≡ some mapping
    → (mapping ≡ "") ⊎ (h.verify_json mapping ≡ true)
    → loaded_config h d.config s.config ≡ some config
    → (t : ChannelForm) × (w : Wire) × (load_channel h (resolved (answer_ok message d)) s ≡ done t)
      × ((after (submit h api t)).sent ≡ put (h.parse_int id) w ∷ s.sent)
      × (w.name ≡ d.name)
      × (w.type ≡ d.type)
      × (w.system_prompt ≡ d.system_prompt)
      × (w.models ≡ d.models)
      × (w.group ≡ d.group)
unfolding loaded_inputs request_of to_wire
submit-load_channel h api d s message {mapping} {config} edit some_model m json c =
    let t : ChannelForm = record s {
      inputs = loaded_inputs d mapping;
      config = config;
      basic_models = h.channel_models d.type;
      loading = false;
    } in
    (
      t,
      to_wire h config (keyed t),
      load_channel-eq-done h d s message m c,
      submit-checked h api t (
            check_complete h (is_edit t) (compose_key t.config t.inputs.key) t.inputs
              (inl (is_edit_of_some t edit), models_ok some_model, json))
          ∙ ap (λ o. request_of h o (to_wire h config (keyed t)) ∷ s.sent) edit,
      refl,
      refl,
      refl,
      join_entries d.models,
      join_entries d.group,
    )
  where
    models_ok :
        (d.type ≡ 43) ⊎ (d.models ≢ "") → (d.type ≡ 43) ⊎ (is_nil (entries d.models) ≡ false)
    models_ok (inl e) = inl e
    models_ok (inr n) = inr (entries-is_nil d.models n)
