-- ===== src/ChannelModels/Tests.antt =====
-- The theorem about the models of the types on one table.
use lite_nova.Prelude.{◌≡◌, refl, true, List, [], ◌∷◌, some}
use lite_nova.Effects.{text, rejected, resolved}
use lite_nova.ChannelModels.{
  Table, models_of, or_nil, Codec, no_models, get_channel_models, Event, load, ask, reload, run,
}
use lite_nova.ChannelModels.Laws.{get_channel_models-run}

abbrev table : Table
table = (1, "gpt-4" ∷ "gpt-4o" ∷ []) ∷ (14, "claude" ∷ []) ∷ []

-- A codec that knows one table.
abbrev codec : Codec
codec = record { stringify = λ t. "table"; parse = λ raw. some table }

abbrev events : List Event
events =
    ask 1
    ∷ load (resolved (record { success = true; message = ""; payload = table }))
    ∷ reload
    ∷ load (rejected (text "offline"))
    ∷ []

get_channel_models-run_example :
    (get_channel_models codec 14 (run codec events no_models)).0 ≡ some ("claude" ∷ [])
unfolding models_of or_nil
get_channel_models-run_example = get_channel_models-run codec events 14 ((refl, refl), tt)
