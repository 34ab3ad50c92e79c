-- ===== src/Usage/Models.antt =====
-- What the name of a model says of it, and the filters of the raw rows.
use text.Mathlib.Text.{starts_with}
use lite_nova.Prelude.{
  ℕ, Bool, false, ◌||◌, String, List, [], ◌∷◌, Option, none, some, str_eq, ◌==◌, if◌then◌else◌,
  keep,
}
use lite_nova.Usage.{Raw}

-- `lower.includes(piece)`
unfoldable pub includes_text : String → String → Bool
includes_text String.[] piece = starts_with "" piece
includes_text (String.◌∷◌ c s) piece =
    let rest = includes_text s piece in starts_with (String.◌∷◌ c s) piece || rest

-- Whether one of the tests holds, in their order.
unfoldable pub is_any : (String → Bool) → List String → Bool
is_any test [] = false
is_any test (p ∷ ps) = test p || is_any test ps

-- The vendors after the first, with the beginnings and the pieces that each is known by.
abbrev pub vendors : List (String × (List String × List String))
vendors =
    ("Anthropic", ("claude" ∷ [], []))
    ∷ ("Google", ("gemini" ∷ "palm" ∷ [], []))
    ∷ ("DeepSeek", ("deepseek" ∷ [], []))
    ∷ ("Alibaba", ("qwen" ∷ "tongyi" ∷ [], []))
    ∷ ("Zhipu", ("glm" ∷ "chatglm" ∷ [], []))
    ∷ ("Baidu", ("ernie" ∷ "wenxin" ∷ [], []))
    ∷ ("Meta", ("llama" ∷ "meta-llama" ∷ [], []))
    ∷ ("Mistral", ("mistral" ∷ "mixtral" ∷ [], []))
    ∷ ("01.AI", ("yi-" ∷ [], []))
    ∷ ("Moonshot", ("moonshot" ∷ "kimi" ∷ [], []))
    ∷ ("iFlytek", ("spark" ∷ [], []))
    ∷ ("Tencent", ("hunyuan" ∷ [], []))
    ∷ ("Stability", ([], "stable-diffusion" ∷ "sdxl" ∷ []))
    ∷ ("Cohere", ("command" ∷ "cohere" ∷ [], []))
    ∷ []

-- The first vendor in a list that a name is known by.
unfoldable pub vendor_in : List (String × (List String × List String)) → String → String
unfolding is_any includes_text
vendor_in [] name = "Other"
vendor_in ((vendor, (starts, pieces)) ∷ rest) name =
    if is_any (starts_with name) starts || is_any (includes_text name) pieces
    then vendor
    else vendor_in rest name

-- `inferProvider`, of the name in lower case
unfoldable pub infer_provider : (lower : String → String) → String → String
unfolding vendor_in is_any includes_text
infer_provider lower model_name =
    vendor_in
      (("OpenAI", ("gpt" ∷ "dall-e" ∷ "whisper" ∷ "tts" ∷ [], "o1" ∷ "o3" ∷ "o4" ∷ [])) ∷ vendors)
      (lower model_name)

-- `inferModelCategory`
unfoldable pub infer_model_category : (lower : String → String) → String → String
unfolding is_any includes_text
infer_model_category lower model_name =
    let name = lower model_name in
    if is_any (includes_text name)
      ("dall-e" ∷ "dalle" ∷ "stable-diffusion" ∷ "sdxl" ∷ "midjourney" ∷ "imagen" ∷ [])
    then "image"
    else (if is_any (includes_text name) ("whisper" ∷ "tts" ∷ "audio" ∷ [])
        then "audio"
        else (if is_any (includes_text name) ("sora" ∷ "video" ∷ "gen-2" ∷ "runway" ∷ [])
            then "video"
            else (if is_any (includes_text name) ("embedding" ∷ "embed" ∷ [])
                  || starts_with name "text-embedding"
                then "embedding"
                else "text")))

-- `a || b` of a text that may be missing
abbrev pub text_or : Option String → String → String
text_or none b = b
text_or (some a) b = if str_eq a "" then b else a

-- The category that the filter sees.
unfoldable pub category_of : (lower : String → String) → Raw → String
unfolding infer_model_category
category_of lower r = text_or r.model_category (infer_model_category lower r.model_name)

-- `filterByModelCategory`
unfoldable pub filter_by_model_category : (lower : String → String) → List Raw → String → List Raw
unfolding category_of
filter_by_model_category lower rs category =
    if str_eq category "all" then rs else keep (λ r. str_eq (category_of lower r) category) rs

-- `filterByChannel`
unfoldable pub filter_by_channel : List Raw → ℕ → List Raw
filter_by_channel rs channel_id = keep (λ r. r.channel_id == channel_id) rs

-- `filterByGroup`
unfoldable pub filter_by_group : List Raw → String → List Raw
filter_by_group rs group = keep (λ r. str_eq r.group group) rs
