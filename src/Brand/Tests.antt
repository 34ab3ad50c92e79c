-- ===== src/Brand/Tests.antt =====
-- The theorems about configurations on small overrides.
use lite_nova.Prelude.{
  ℕ, ◌≡◌, ◌↔◌, refl, true, false, String, [], ◌∷◌, none, some, arith, str_eq, if◌then◌else◌,
}
use lite_nova.Brand.Merge.{missing, text, object, Fields, end, field, is_missing, get, deep_merge}
use lite_nova.Brand.Merge.Laws.{at_path, is_blocked, deep_merge-at_path}
use lite_nova.Brand.Defaults.{default_brand_config, fields, texts}
use lite_nova.Brand.Validate.{is_hex_color, check_config, validate_config}
use lite_nova.Brand.Validate.Laws.{HasName, HasColors, validate_config_iff}
use lite_nova.Brand.Loader.{
  CacheEntry, Json, Storage, ConfigLoadOptions, loaded, failed, ttl_of, has_remote,
  load_brand_config,
}
use lite_nova.Brand.Loader.Laws.{load_brand_config-at_path}
use lite_nova.Brand.Loader.Cache.{load_brand_config-cached}

-- { text: { slogan: … } }, { color: { colors: { primary: … } } } and { text: … }
abbrev slogan : Fields
slogan = field "text" (object (texts (("slogan", "Fast") ∷ []))) end

abbrev palette : Fields
palette =
    field "color" (object (field "colors" (object (texts (("primary", "#123") ∷ []))) end)) end

abbrev plain : Fields
plain = field "text" (text "none") end

deep_merge-at_path_example :
    at_path ("text" ∷ "brandName" ∷ []) (object (deep_merge default_brand_config (some slogan)))
    ≡ text "Lite999"
unfolding at_path is_blocked get is_missing default_brand_config fields
deep_merge-at_path_example =
    deep_merge-at_path ("text" ∷ "brandName" ∷ []) default_brand_config slogan
      (tt, (tt, tt, tt), tt)

abbrev numbers : ℕ → String
numbers n = "0"

validate_config_iff_example :
    (validate_config numbers (object default_brand_config) ≡ [])
    ↔ HasName "id" (get "meta" default_brand_config)
      × HasColors (get "color" default_brand_config)
      × HasName "brandName" (get "text" default_brand_config)
validate_config_iff_example = validate_config_iff numbers default_brand_config

-- The default configuration is accepted.
default_is_accepted : validate_config numbers (object default_brand_config) ≡ []
unfolding validate_config check_config is_hex_color default_brand_config get
default_is_accepted = refl

-- A codec that knows one entry, and a storage that is empty.
abbrev options : ConfigLoadOptions
options = record {
  remote_url = some "https://brand.test";
  cache_key = none;
  cache_ttl = some 1000;
  static_overrides = some palette;
}

abbrev entry : CacheEntry
entry = record { data_of = slogan; timestamp = 50; ttl = 1000 }

abbrev json : Json
json = record {
  stringify = λ e. "entry";
  parse = λ raw. if str_eq raw "entry" then some entry else none;
}

abbrev storage : Storage
storage = record { is_open = true; is_full = false; items = [] }

load_brand_config-at_path_example :
    at_path ("text" ∷ "slogan" ∷ []) (
      object
        (load_brand_config numbers json 50 options (loaded slogan) (some plain) storage).merged)
    ≡ missing
unfolding at_path is_blocked get is_missing default_brand_config fields has_remote
load_brand_config-at_path_example =
    load_brand_config-at_path json 50 options numbers (loaded slogan) (some plain) storage
      ("text" ∷ "slogan" ∷ []) (tt, (tt, (tt, tt, tt), tt), tt) (tt, (tt, tt, tt), tt) (tt, tt, tt)

load_brand_config-cached_example :
    let first = load_brand_config numbers json 50 options (loaded slogan) none storage in
    let second = load_brand_config numbers json 900 options (failed "offline") none first.storage in
    (second.merged ≡ first.merged) × (second.storage ≡ first.storage)
unfolding has_remote ttl_of
load_brand_config-cached_example =
    load_brand_config-cached json options 50 slogan storage refl refl refl refl numbers none
      "offline" refl 900 (omega arith)
