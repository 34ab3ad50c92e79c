-- ===== src/ChannelModels/Laws.antt =====
-- Whatever happens, the models of a type are those of the last table that the server listed.
use lite_nova.Prelude.{
  ℕ, ◌≡◌, ◌⊎◌, refl, false, String, List, [], ◌∷◌, Option, none, some, str_eq, if◌then◌else◌,
  Bool-cases, inl, inr,
}
use lite_nova.Effects.{rejected, resolved}
use lite_nova.ChannelModels.{
  Table, models_of, Codec, Store, no_models, load_channel_models, or_nil, read_stored, take_known,
  get_channel_models, Event, load, ask, reload, handle, run,
}

-- The last table that was listed, if there is one.
abbrev pub latest : List Event → Option Table → Option Table
latest [] t = t
latest (load (resolved a) ∷ events) t = latest events (if a.success then some a.payload else t)
latest (_ ∷ events) t = latest events t

-- A table comes back from its text, which is not empty.
abbrev pub Returns : Codec → Table → Type 0
Returns codec table =
    (codec.parse (codec.stringify table) ≡ some table) × (str_eq (codec.stringify table) "" ≡ false)

-- Every table that is listed comes back from its text.
abbrev pub AllReturn : Codec → List Event → Type 0
AllReturn codec [] = Unit
AllReturn codec (load (resolved a) ∷ events) = Returns codec a.payload × AllReturn codec events
AllReturn codec (_ ∷ events) = AllReturn codec events

-- The storage has the text of the table, and the variable the table or nothing.
abbrev Shows : Codec → Option Table → Store → Type 0
Shows codec none s = (s.channel_models ≡ none) × (s.stored ≡ none)
Shows codec (some table) s =
    ((s.channel_models ≡ none) ⊎ (s.channel_models ≡ some table))
    × (s.stored ≡ some (codec.stringify table))
    × Returns codec table

abbrev pub listed : ℕ → Option Table → List String
listed type none = []
listed type (some table) = or_nil (models_of type table)

module _ (codec : Codec) where
  read_stored-eq :
      (type : ℕ) (table : Table) (s : Store)
      → s.stored ≡ some (codec.stringify table)
      → Returns codec table
      → read_stored codec type s
        ≡ (some (or_nil (models_of type table)), record s { channel_models = some table })
  unfolding read_stored
  read_stored-eq type table s e (back, long) = rw (e, long, back) refl

  take_known-Shows :
      (type : ℕ) (table : Table) (raw : Option String) (o : Option (List String))
      → models_of type table ≡ o
      → raw ≡ some (codec.stringify table)
      → Returns codec table
      → let s : Store = record { channel_models = some table; stored = raw } in
        ((take_known codec type s o).0 ≡ some (or_nil (models_of type table)))
        × Shows codec (some table) (take_known codec type s o).1
  unfolding take_known
  take_known-Shows type table raw (some models) e kept back =
      (rw e (unfold or_nil in refl), (inr refl, kept, back))
  take_known-Shows type table raw none e kept back =
      rw
        (read_stored-eq type table (record { channel_models = some table; stored = raw }) kept back)
        (refl, (inr refl, kept, back))

  get_channel_models-Shows :
      (type : ℕ) (t : Option Table) (s : Store)
      → Shows codec t s
      → ((get_channel_models codec type s).0 ≡ some (listed type t))
        × Shows codec t (get_channel_models codec type s).1
  unfolding get_channel_models
  get_channel_models-Shows type none s (empty, gone) =
      rw empty (unfold read_stored in rw gone (refl, (refl, refl)))
  get_channel_models-Shows type (some table) s (inl empty, kept, back) = rw empty (
      rw (read_stored-eq type table (record s { channel_models = none }) kept back)
        (refl, (inr refl, kept, back)))
  get_channel_models-Shows type (some table) s (inr known, kept, back) =
      rw known (take_known-Shows type table s.stored (models_of type table) refl kept back)

  run-Shows :
      (events : List Event) (t : Option Table) (s : Store)
      → AllReturn codec events
      → Shows codec t s
      → Shows codec (latest events t) (run codec events s)
  unfolding run handle load_channel_models
  run-Shows [] t s r h = h
  run-Shows (load (rejected e) ∷ events) t s r h = run-Shows events t s r h
  run-Shows (load (resolved a) ∷ events) t s (back, r) h = elim (Bool-cases a.success) [
    | inl e ↦ rw e (run-Shows events (some a.payload) _ r (inr refl, refl, back))
    | inr e ↦ rw e (run-Shows events t s r h)
  ]
  run-Shows (ask type ∷ events) t s r h =
      run-Shows events t _ r (get_channel_models-Shows type t s h).1
  run-Shows (reload ∷ events) none s r (empty, gone) = run-Shows events none _ r (refl, gone)
  run-Shows (reload ∷ events) (some table) s r (known, kept, back) =
      run-Shows events (some table) _ r (inl refl, kept, back)

  -- After any sequence of replies, requests of a form and new loads of the page, the models of a
  -- type are those of the last table that the server listed, none if it does not have the type or no
  -- table was listed; nothing throws. Every table that was listed comes back from its text.
  pub get_channel_models-run :
      (events : List Event) (type : ℕ)
      → AllReturn codec events
      → (get_channel_models codec type (run codec events no_models)).0
        ≡ some (listed type (latest events none))
  get_channel_models-run events type r =
      (get_channel_models-Shows type (latest events none) (run codec events no_models)
        (run-Shows events none no_models r (refl, refl))).0
