-- ===== src/Brand/Loader/Cache.antt =====
-- The cached configuration stands in for the remote one until it expires, and is then removed.
use lite_nova.Prelude.{
  ℕ, ◌+◌, ◌-◌, ◌≡◌, ◌≤◌, ◌<◌, refl, sym, ap, ◌∙◌, true, false, String, List, [], ◌∷◌, Option, none,
  some, ltb, str_eq, eq_iff, if◌then◌else◌, arith,
}
use lite_nova.Brand.Merge.{Fields, deep_merge}
use lite_nova.Brand.Defaults.{default_brand_config}
use lite_nova.Brand.Loader.{
  CacheEntry, Json, Storage, get_item, set_item, remove_item, cached_entry, get_cached_config,
  set_cached_config, default, static, remote, runtime, ConfigLoadOptions, Fetched, loaded, failed,
  key_of, ttl_of, has_remote, Loading, add_layer, add_cached, add_remote, add_errors, merge_layers,
  load_brand_config, load_brand_config_sync,
}
use lite_nova.Brand.Loader.Laws.{add_layer-storage, merge_layers-merged}

get_item-set_item :
    (key raw : String) (items : List (String × String))
    → get_item key (set_item key raw items) ≡ some raw
unfolding get_item set_item
get_item-set_item key raw [] = ground (arith, eq_iff key key)
get_item-set_item key raw ((k, old) ∷ items) =
    ground (arith, eq_iff k key, get_item-set_item key raw items)

get_item-remove_item :
    (key : String) (items : List (String × String)) → get_item key (remove_item key items) ≡ none
unfolding get_item remove_item
get_item-remove_item key [] = refl
get_item-remove_item key ((k, raw) ∷ items) = ground (arith, get_item-remove_item key items)

add_cached-storage :
    (error : String) (o : Option Fields) (storage : Storage) (l : Loading)
    → (add_cached error (o, storage) l).storage ≡ storage
unfolding add_cached
add_cached-storage error none storage l = refl
add_cached-storage error (some fields) storage l = refl

module _ (json : Json) (options : ConfigLoadOptions) (asked : has_remote options ≡ true) where
  -- The storage behind the layers is that behind the remote step.
  merge_layers-storage :
      (now : ℕ) (fetched : Fetched) (runtime_overrides : Option Fields) (storage : Storage)
      → (merge_layers json now options fetched runtime_overrides storage).storage ≡ elim fetched [
        | loaded config ↦
            set_cached_config json now (key_of options) config (ttl_of options) storage
        | failed error ↦ (get_cached_config json now (key_of options) storage).1
      ]
  unfolding merge_layers
  merge_layers-storage now fetched runtime_overrides storage =
      let start : Loading = record {
        merged = default_brand_config;
        sources = default ∷ [];
        warnings = [];
        storage = storage;
      } in
      let l = add_layer static options.static_overrides start in
      add_layer-storage runtime runtime_overrides _
      ∙ rw asked (step fetched l (add_layer-storage static options.static_overrides start))
    where
      step :
          (fetched : Fetched) (l : Loading)
          → l.storage ≡ storage
          → (add_remote json now options fetched l).storage ≡ elim fetched [
            | loaded config ↦
                set_cached_config json now (key_of options) config (ttl_of options) storage
            | failed error ↦ (get_cached_config json now (key_of options) storage).1
          ]
      step (loaded config) l e =
          unfold add_remote in
          ap (set_cached_config json now (key_of options) config (ttl_of options))
            (add_layer-storage remote (some config) l ∙ e)
      step (failed error) l e =
          let (o, s) = get_cached_config json now (key_of options) l.storage in
          unfold add_remote in
          (add_cached-storage error o s l
            ∙ ap (λ st. (get_cached_config json now (key_of options) st).1) e)

-- The entry that is cached.
abbrev pub entry_of : ConfigLoadOptions → ℕ → Fields → CacheEntry
entry_of options now config = record { data_of = config; timestamp = now; ttl = ttl_of options }

-- The storage with a text written.
abbrev written : Storage → String → String → Storage
written storage key raw = record storage { items = set_item key raw storage.items }

module _ (json : Json) (options : ConfigLoadOptions) (now : ℕ) (config : Fields) (storage : Storage)
    (opened : storage.is_open ≡ true) (room : storage.is_full ≡ false)
    (back : json.parse (json.stringify (entry_of options now config))
      ≡ some (entry_of options now config))
    (long : str_eq (json.stringify (entry_of options now config)) "" ≡ false) where
  abbrev kept : Storage
  kept = written storage (key_of options) (json.stringify (entry_of options now config))

  set_cached_config-eq_kept :
      set_cached_config json now (key_of options) config (ttl_of options) storage ≡ kept
  unfolding set_cached_config
  set_cached_config-eq_kept = rw (opened, room) refl

  -- The cache is read at a later time.
  get_cached_config-kept :
      (later : ℕ)
      → get_cached_config json later (key_of options) kept ≡ (
          if ltb (ttl_of options) (later - now)
          then (none, record kept { items = remove_item (key_of options) kept.items })
          else (some config, kept))
  unfolding get_cached_config cached_entry
  get_cached_config-kept later =
      rw
        (
          opened,
          get_item-set_item (key_of options) (json.stringify (entry_of options now config))
              storage.items,
          long,
          back,
        )
        refl

  module _ (number_text : ℕ → String) (runtime_overrides : Option Fields) (error : String)
      (asked : has_remote options ≡ true) where
    -- The load that fetches the configuration, and a later one whose request fails.
    abbrev first : Loading
    first = load_brand_config number_text json now options (loaded config) runtime_overrides storage

    abbrev second : ℕ → Loading
    second later =
        load_brand_config number_text json later options (failed error) runtime_overrides
          first.storage

    first-storage : first.storage ≡ kept
    unfolding load_brand_config add_errors
    first-storage =
        merge_layers-storage json options asked now (loaded config) runtime_overrides storage
        ∙ set_cached_config-eq_kept

    first-merged :
        first.merged
        ≡ deep_merge
            (deep_merge (deep_merge default_brand_config options.static_overrides) (some config))
            runtime_overrides
    unfolding load_brand_config add_errors
    first-merged =
        merge_layers-merged json now options (loaded config) runtime_overrides storage
        ∙ rw asked refl

    failed-merged :
        (later : ℕ) (s : Storage)
        → (merge_layers json later options (failed error) runtime_overrides s).merged
          ≡ deep_merge
              (deep_merge
                (deep_merge default_brand_config options.static_overrides)
                (get_cached_config json later (key_of options) s).0)
              runtime_overrides
    failed-merged later s =
        merge_layers-merged json later options (failed error) runtime_overrides s ∙ rw asked refl

    second-merged :
        (later : ℕ)
        → (second later).merged
          ≡ deep_merge
              (deep_merge
                (deep_merge default_brand_config options.static_overrides)
                (get_cached_config json later (key_of options) kept).0)
              runtime_overrides
    unfolding load_brand_config add_errors
    second-merged later =
        failed-merged later first.storage
        ∙ ap
            (λ s.
              deep_merge
                (deep_merge (deep_merge default_brand_config options.static_overrides)
                  (get_cached_config json later (key_of options) s).0)
                runtime_overrides)
            first-storage

    second-storage :
        (later : ℕ)
        → (second later).storage ≡ (get_cached_config json later (key_of options) kept).1
    unfolding load_brand_config add_errors
    second-storage later =
        merge_layers-storage json options asked later (failed error) runtime_overrides first.storage
        ∙ ap (λ s. (get_cached_config json later (key_of options) s).1) first-storage

    -- A configuration that was fetched and cached is loaded again when a later request fails, until
    -- its time to live is over, and the cache is left as it is. The storage is usable and has room,
    -- and what is stored is not empty and is parsed as what was written.
    pub load_brand_config-cached :
        (later : ℕ)
        → later ≤ now + ttl_of options
        → ((second later).merged ≡ first.merged) × ((second later).storage ≡ first.storage)
    load_brand_config-cached later fresh =
        let young : ltb (ttl_of options) (later - now) ≡ false = ground arith in
        (
          second-merged later ∙ rw (get_cached_config-kept later, young) refl ∙ sym first-merged,
          second-storage later ∙ rw (get_cached_config-kept later, young) refl ∙ sym first-storage,
        )

    -- Once its time to live is over, a failed request loads what the overrides alone give, and the
    -- entry is removed from the storage. The conditions are those under which it was cached.
    pub load_brand_config-expired :
        (later : ℕ)
        → now + ttl_of options < later
        → ((second later).merged
            ≡ load_brand_config_sync options.static_overrides runtime_overrides)
          × (get_item (key_of options) (second later).storage.items ≡ none)
    unfolding load_brand_config_sync deep_merge
    load_brand_config-expired later old =
        let stale : ltb (ttl_of options) (later - now) ≡ true = ground arith in
        let gone : Storage = record kept { items = remove_item (key_of options) kept.items } in
        let read : get_cached_config json later (key_of options) kept ≡ (none, gone) =
          get_cached_config-kept later ∙ rw stale refl in
        (
          second-merged later ∙ rw read refl,
          ap (λ (s : Storage). get_item (key_of options) s.items)
                (second-storage later ∙ ap (λ (c : Option Fields × Storage). c.1) read)
              ∙ get_item-remove_item (key_of options) kept.items,
        )
