-- ===== src/Brand/Loader.antt =====
-- The layers from which a configuration is loaded, and the cache of the remote one
-- (frontend/T-010-brand-customization/src/brand/config-loader.ts).
pub mod Laws
pub mod Cache
use Prim.Native.String.{◌++◌ as ◌<>◌}
use lite_nova.Prelude.{
  ℕ, ◌-◌, ◌*◌, Bool, true, false, not, ◌&&◌, String, List, [], ◌∷◌, ◌++◌, Option, none, some, map,
  push, ltb, ◌==◌, str_eq, if◌then◌else◌,
}
use lite_nova.Brand.Merge.{Fields, object, deep_merge}
use lite_nova.Brand.Defaults.{default_brand_config}
use lite_nova.Brand.Validate.{ConfigValidationError, validate_config}

-- `CacheEntry`
pub record CacheEntry : Type 0 where
  pub data_of : Fields
  pub timestamp : ℕ
  pub ttl : ℕ

-- `JSON.stringify` and `JSON.parse` of an entry; the latter gives nothing where it throws or gives
-- no entry.
pub record Json : Type 0 where
  pub stringify : CacheEntry → String
  pub parse : String → Option CacheEntry

-- `localStorage`: its texts by their names, whether it can be used at all, and whether it is full.
pub record Storage : Type 0 where
  pub is_open : Bool
  pub is_full : Bool
  pub items : List (String × String)

unfoldable pub get_item : String → List (String × String) → Option String
get_item key [] = none
get_item key ((k, raw) ∷ items) = if str_eq k key then some raw else get_item key items

unfoldable pub set_item : String → String → List (String × String) → List (String × String)
set_item key raw [] = (key, raw) ∷ []
set_item key raw ((k, old) ∷ items) =
    if str_eq k key then (k, raw) ∷ items else (k, old) ∷ set_item key raw items

unfoldable pub remove_item : String → List (String × String) → List (String × String)
remove_item key [] = []
remove_item key ((k, raw) ∷ items) =
    let rest = remove_item key items in if str_eq k key then rest else (k, raw) ∷ rest

abbrev pub default_cache_key : String
default_cache_key = "__brand_config_cache__"

abbrev pub default_cache_ttl : ℕ
default_cache_ttl = 24 * 60 * 60 * 1000

-- `getCachedConfig`, once the text is read
unfoldable pub cached_entry :
    Json → (now : ℕ) → (cache_key : String) → Storage → Option String → Option Fields × Storage
unfolding remove_item
cached_entry json now cache_key storage none = (none, storage)
cached_entry json now cache_key storage (some raw) =
    if str_eq raw "" then (none, storage) else elim (json.parse raw) [
      | none ↦ (none, storage)
      | some entry ↦
          if ltb entry.ttl (now - entry.timestamp)
          then (none, record storage { items = remove_item cache_key storage.items })
          else (some entry.data_of, storage)
    ]

-- `getCachedConfig`
unfoldable pub get_cached_config :
    Json → (now : ℕ) → (cache_key : String) → Storage → Option Fields × Storage
unfolding cached_entry get_item
get_cached_config json now cache_key storage =
    if storage.is_open
    then cached_entry json now cache_key storage (get_item cache_key storage.items)
    else (none, storage)

-- `setCachedConfig`
unfoldable pub set_cached_config :
    Json → (now : ℕ) → (cache_key : String) → Fields → (ttl : ℕ) → Storage → Storage
unfolding set_item
set_cached_config json now cache_key config ttl storage =
    if storage.is_open && not storage.is_full
    then record storage {
      items =
          set_item cache_key
            (json.stringify (record { data_of = config; timestamp = now; ttl = ttl }))
            storage.items;
    }
    else storage

pub data ConfigSource : Type 0 where
  default static remote runtime : ConfigSource

pub record ConfigLoadOptions : Type 0 where
  pub remote_url : Option String
  pub cache_key : Option String
  pub cache_ttl : Option ℕ
  pub static_overrides : Option Fields

-- What `fetchRemoteConfig` comes to: the configuration, or the text of an error.
pub data Fetched : Type 0 where
  loaded : Fields → Fetched
  failed : String → Fetched

-- `options.cacheKey || DEFAULT_CACHE_KEY`
unfoldable pub key_of : ConfigLoadOptions → String
key_of options = elim options.cache_key [
  | none ↦ default_cache_key
  | some key ↦ if str_eq key "" then default_cache_key else key
]

-- `options.cacheTTL || DEFAULT_CACHE_TTL`
unfoldable pub ttl_of : ConfigLoadOptions → ℕ
ttl_of options = elim options.cache_ttl [
  | none ↦ default_cache_ttl
  | some ttl ↦ if ttl == 0 then default_cache_ttl else ttl
]

-- `if (options.remoteUrl)`
unfoldable pub has_remote : ConfigLoadOptions → Bool
has_remote options = elim options.remote_url [ none ↦ false | some url ↦ not (str_eq url "") ]

pub record Loading : Type 0 where
  pub merged : Fields
  pub sources : List ConfigSource
  pub warnings : List String
  pub storage : Storage

-- A layer that may be given, with its name.
unfoldable pub add_layer : ConfigSource → Option Fields → Loading → Loading
unfolding deep_merge
add_layer source none l = l
add_layer source (some overrides) l = record l {
  merged = deep_merge l.merged (some overrides);
  sources = push l.sources source;
}

-- What the `catch` does with the cache.
unfoldable pub add_cached : (error : String) → Option Fields × Storage → Loading → Loading
unfolding deep_merge
add_cached error (some cached, storage) l = record l {
  merged = deep_merge l.merged (some cached);
  warnings = push l.warnings ("Remote config failed, using cache. Error: " <> error);
  storage = storage;
}
add_cached error (none, storage) l = record l {
  warnings = push l.warnings ("Remote config failed, no cache available. Error: " <> error);
  storage = storage;
}

-- The third step, where there is a remote URL.
unfoldable pub add_remote : Json → (now : ℕ) → ConfigLoadOptions → Fetched → Loading → Loading
unfolding add_layer add_cached get_cached_config set_cached_config key_of ttl_of
add_remote json now options (loaded config) l =
    let l' = add_layer remote (some config) l in
    record l' {
      storage = set_cached_config json now (key_of options) config (ttl_of options) l'.storage;
    }
add_remote json now options (failed error) l =
    add_cached error (get_cached_config json now (key_of options) l.storage) l

-- The last step.
unfoldable pub add_errors : (number_text : ℕ → String) → Loading → Loading
unfolding validate_config
add_errors number_text l = record l {
  warnings =
      l.warnings
      ++ map (λ e. "Validation: [" <> (e.path <> ("] " <> e.message)))
          (validate_config number_text (object l.merged));
}

-- The steps before the check of the result.
unfoldable pub merge_layers :
    Json
    → (now : ℕ) → ConfigLoadOptions
    → Fetched
    → (runtime_overrides : Option Fields) → Storage
    → Loading
unfolding add_layer has_remote add_remote
merge_layers json now options fetched runtime_overrides storage =
    let start : Loading = record {
      merged = default_brand_config;
      sources = default ∷ [];
      warnings = [];
      storage = storage;
    } in
    let l = add_layer static options.static_overrides start in
    add_layer runtime runtime_overrides
      (if has_remote options then add_remote json now options fetched l else l)

-- `loadBrandConfig`, where the remote request, if there is one, comes to `fetched` at the time `now`.
unfoldable pub load_brand_config :
    (number_text : ℕ → String)
    → Json
    → (now : ℕ) → ConfigLoadOptions
    → Fetched
    → (runtime_overrides : Option Fields) → Storage
    → Loading
unfolding add_errors merge_layers
load_brand_config number_text json now options fetched runtime_overrides storage =
    add_errors number_text (merge_layers json now options fetched runtime_overrides storage)

-- `loadBrandConfigSync`
unfoldable pub load_brand_config_sync :
    (static_overrides runtime_overrides : Option Fields) → Fields
unfolding deep_merge
load_brand_config_sync static_overrides runtime_overrides =
    deep_merge (deep_merge default_brand_config static_overrides) runtime_overrides
