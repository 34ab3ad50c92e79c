-- ===== src/Brand/Loader/Laws.antt =====
-- Which layer decides what a path reads in a loaded configuration, and that the cache stands in for
-- the remote configuration until it expires.
use lite_nova.Prelude.{
  ℕ, ◌≡◌, refl, ap, ◌∙◌, String, List, [], ◌∷◌, Option, none, some, if◌then◌else◌, Bool-cases, inl,
  inr,
}
use lite_nova.Brand.Merge.{Value, missing, object, Fields, deep_merge}
use lite_nova.Brand.Merge.Laws.{IsObject, at_path, is_blocked, over, deep_merge-at_path}
use lite_nova.Brand.Defaults.{default_brand_config}
use lite_nova.Brand.Loader.{
  Json, Storage, get_cached_config, ConfigSource, default, static, remote, runtime,
  ConfigLoadOptions, Fetched, loaded, failed, key_of, has_remote, Loading, add_layer, add_cached,
  add_remote, add_errors, merge_layers, load_brand_config,
}

-- The layer, if it is given, has no object with two fields of one name.
abbrev pub IsLayer : Option Fields → Type 0
IsLayer none = Unit
IsLayer (some fields) = IsObject fields

-- What a path reads when a layer is laid over what it read before.
abbrev pub lay : List String → Option Fields → Value → Value
lay path none below = below
lay path (some fields) below =
    if is_blocked path (object fields) then missing else over below (at_path path (object fields))

-- What the remote step lays over the rest: the configuration that was fetched, else the cached one.
abbrev pub remote_layer : Json → ℕ → ConfigLoadOptions → Fetched → Storage → Option Fields
remote_layer json now options fetched storage =
    if has_remote options
    then elim fetched [
      | loaded config ↦ some config
      | failed error ↦ (get_cached_config json now (key_of options) storage).0
    ]
    else none

lay-at_path :
    (path : List String) (o : Option Fields) (below : Fields)
    → IsLayer o
    → at_path path (object (deep_merge below o)) ≡ lay path o (at_path path (object below))
lay-at_path path none below h = unfold deep_merge in refl
lay-at_path path (some fields) below h = deep_merge-at_path path below fields h

add_layer-merged :
    (source : ConfigSource) (o : Option Fields) (l : Loading)
    → (add_layer source o l).merged ≡ deep_merge l.merged o
unfolding add_layer
add_layer-merged source none l = unfold deep_merge in refl
add_layer-merged source (some fields) l = refl

pub add_layer-storage :
    (source : ConfigSource) (o : Option Fields) (l : Loading)
    → (add_layer source o l).storage ≡ l.storage
unfolding add_layer
add_layer-storage source none l = refl
add_layer-storage source (some fields) l = refl

add_cached-merged :
    (error : String) (o : Option Fields) (storage : Storage) (l : Loading)
    → (add_cached error (o, storage) l).merged ≡ deep_merge l.merged o
unfolding add_cached
add_cached-merged error none storage l = unfold deep_merge in refl
add_cached-merged error (some fields) storage l = refl

module _ (json : Json) (now : ℕ) (options : ConfigLoadOptions) where
  add_remote-merged :
      (fetched : Fetched) (l : Loading)
      → (if has_remote options then add_remote json now options fetched l else l).merged
        ≡ deep_merge l.merged (remote_layer json now options fetched l.storage)
  add_remote-merged fetched l = elim (Bool-cases (has_remote options)) [
    | inr e ↦ rw e (unfold deep_merge in refl)
    | inl e ↦ rw e (step fetched)
  ]
    where
      step :
          (fetched : Fetched)
          → (add_remote json now options fetched l).merged
            ≡ deep_merge l.merged (elim fetched [
              | loaded config ↦ some config
              | failed error ↦ (get_cached_config json now (key_of options) l.storage).0
            ])
      step (loaded config) = unfold add_remote in add_layer-merged remote (some config) l
      step (failed error) =
          let (o, storage) = get_cached_config json now (key_of options) l.storage in
          unfold add_remote in add_cached-merged error o storage l

  -- The layers, one over the other.
  pub merge_layers-merged :
      (fetched : Fetched) (runtime_overrides : Option Fields) (storage : Storage)
      → (merge_layers json now options fetched runtime_overrides storage).merged
        ≡ deep_merge
            (deep_merge
              (deep_merge default_brand_config options.static_overrides)
              (remote_layer json now options fetched storage))
            runtime_overrides
  unfolding merge_layers
  merge_layers-merged fetched runtime_overrides storage =
      let start : Loading = record {
        merged = default_brand_config;
        sources = default ∷ [];
        warnings = [];
        storage = storage;
      } in
      let l = add_layer static options.static_overrides start in
      add_layer-merged runtime runtime_overrides
        (if has_remote options then add_remote json now options fetched l else l)
      ∙ ap (λ m. deep_merge m runtime_overrides)
          (add_remote-merged fetched l
            ∙ ap (λ m. deep_merge m (remote_layer json now options fetched l.storage))
                (add_layer-merged static options.static_overrides start)
            ∙ ap
                (λ s.
                  deep_merge (deep_merge default_brand_config options.static_overrides)
                    (remote_layer json now options fetched s))
                (add_layer-storage static options.static_overrides start))

  -- What a path reads in a loaded configuration is decided layer by layer: the default, then the
  -- static overrides, what was fetched (or is cached, if the request failed), and the overrides at
  -- run time. A layer that says nothing of the path leaves it alone, and one that has a plain value
  -- on the way hides what is below. No layer has an object with two fields of one name.
  pub load_brand_config-at_path :
      (number_text : ℕ → String) (fetched : Fetched) (runtime_overrides : Option Fields)
      (storage : Storage) (path : List String)
      → IsLayer options.static_overrides
      → IsLayer (remote_layer json now options fetched storage)
      → IsLayer runtime_overrides
      → at_path path (
          object
            (load_brand_config number_text json now options fetched runtime_overrides
              storage).merged)
        ≡ lay path runtime_overrides (
            lay path
              (remote_layer json now options fetched storage)
              (lay path options.static_overrides (at_path path (object default_brand_config))))
  unfolding load_brand_config add_errors
  load_brand_config-at_path number_text fetched runtime_overrides storage path a b c =
      ap (λ m. at_path path (object m)) (merge_layers-merged fetched runtime_overrides storage)
      ∙ lay-at_path path runtime_overrides _ c
      ∙ ap (lay path runtime_overrides) (
          lay-at_path path (remote_layer json now options fetched storage) _ b
          ∙ ap (lay path (remote_layer json now options fetched storage))
              (lay-at_path path options.static_overrides default_brand_config a))
