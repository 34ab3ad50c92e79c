-- ===== src/ChannelModels.antt =====
-- The models of each type of channel, as the server lists them, and who the stored user is
-- (web-src/web/src/helpers/utils.js): a table that is kept in a variable of the module and in the
-- local storage.
pub mod Laws
pub mod Tests
use lite_nova.Prelude.{
  ℕ, Bool, true, false, String, List, [], ◌∷◌, Option, none, some, leb, ◌==◌, str_eq, if◌then◌else◌,
}
use lite_nova.Effects.{Reply, rejected, resolved, Outcome, done, threw, type_error, after}
use lite_nova.Sessions.{Account}

-- `isAdmin` and `isRoot`, of the user in the local storage
unfoldable pub is_admin : Option Account → Bool
is_admin none = false
is_admin (some user) = leb 10 user.role

unfoldable pub is_root : Option Account → Bool
is_root none = false
is_root (some user) = leb 100 user.role

-- `res.data.data` of /api/models: the models of the types.
abbrev pub Table : Type 0
Table = List (ℕ × List String)

-- `table[type]`, where `type in table`
unfoldable pub models_of : ℕ → Table → Option (List String)
models_of type [] = none
models_of type ((t, models) ∷ table) = if t == type then some models else models_of type table

-- `JSON.stringify` and `JSON.parse` of a table; the latter gives nothing where it throws.
pub record Codec : Type 0 where
  pub stringify : Table → String
  pub parse : String → Option Table

-- The variable `channelModels`, and the text in the local storage.
pub record Store : Type 0 where
  pub channel_models : Option Table
  pub stored : Option String

abbrev pub no_models : Store
no_models = record { channel_models = none; stored = none }

-- `loadChannelModels`
unfoldable pub load_channel_models : Codec → Reply Table → Store → Outcome Store
load_channel_models codec (rejected e) s = threw e s
load_channel_models codec (resolved a) s = done (
    if a.success
    then record { channel_models = some a.payload; stored = some (codec.stringify a.payload) }
    else s)

-- The models, or `[]`.
unfoldable pub or_nil : Option (List String) → List String
or_nil none = []
or_nil (some models) = models

-- `getChannelModels`, from the read of the local storage on; where the text is no table, it throws.
unfoldable pub read_stored : Codec → (type : ℕ) → Store → Option (List String) × Store
unfolding models_of or_nil
read_stored codec type s = elim s.stored [
  | none ↦ (some [], s)
  | some raw ↦ if str_eq raw "" then (some [], s) else elim (codec.parse raw) [
    | none ↦ (none, s)
    | some table ↦ (some (or_nil (models_of type table)), record s { channel_models = some table })
  ]
]

-- `getChannelModels`, once the type is looked up in the variable
unfoldable pub take_known :
    Codec → (type : ℕ) → Store → Option (List String) → Option (List String) × Store
unfolding read_stored
take_known codec type s (some models) = (some models, s)
take_known codec type s none = read_stored codec type s

-- `getChannelModels`: what it returns, or nothing if it throws, and the store behind it
unfoldable pub get_channel_models : Codec → (type : ℕ) → Store → Option (List String) × Store
unfolding models_of take_known read_stored
get_channel_models codec type s = elim s.channel_models [
  | none ↦ read_stored codec type s
  | some table ↦ take_known codec type s (models_of type table)
]

-- What can happen: a reply comes in, a form asks for the models of a type, or the page is loaded
-- again, which forgets the variable.
pub data Event : Type 0 where
  load : Reply Table → Event
  ask : ℕ → Event
  reload : Event

unfoldable pub handle : Codec → Event → Store → Store
unfolding load_channel_models get_channel_models
handle codec (load r) s = after (load_channel_models codec r s)
handle codec (ask type) s = (get_channel_models codec type s).1
handle codec reload s = record s { channel_models = none }

unfoldable pub run : Codec → List Event → Store → Store
unfolding handle
run codec [] s = s
run codec (e ∷ events) s = run codec events (handle codec e s)
