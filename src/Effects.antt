-- ===== src/Effects.antt =====
-- What a handler of a page exchanges with its surroundings (web-src/web/src/helpers/utils.js and
-- helpers/api.js): the reply that a call of the API is awaited for, the messages that it shows,
-- and whether the handler ran to its end or threw.
pub mod Laws
use Prim.Native.String.{◌++◌}
use lite_nova.Prelude.{ℕ, Bool, true, false, String, List, ◌∷◌, Option, none, some, ◌==◌, str_eq}
use lite_nova.Prelude.{if◌then◌else◌}

-- What the user gets to see.
pub data Effect : Type 0 where
  success error info warning : String → Effect
  redirect open_window : String → Effect

-- What `showError` is called with, and what a handler throws: a text, or an error object with its
-- name, its message and, where the server answered at all, the status of `error.response`.
pub data Failure : Type 0 where
  text : String → Failure
  error_object : (name message : String) → (response : Option ℕ) → Failure

abbrev pub type_error : Failure
type_error = error_object "TypeError" "undefined" none

-- `error.message`
abbrev pub message_of : Failure → String
message_of (text m) = ""
message_of (error_object name message response) = message

-- `res.data` of a reply: `success`, `message` and `data`.
pub record Answer (A : Type 0) : Type 0 where
  pub success : Bool
  pub message : String
  pub payload : A

-- What an awaited call gives: the promise rejects, or it resolves.
pub data Reply (A : Type 0) : Type 0 where
  rejected : Failure → Reply A
  resolved : Answer A → Reply A

-- A handler ends, or it throws and leaves what it has already done.
pub data Outcome (S : Type 0) : Type 0 where
  done : S → Outcome S
  threw : Failure → S → Outcome S

-- The state that an outcome leaves.
abbrev pub after : {S : Type 0} → Outcome S → S
after (done s) = s
after (threw e s) = s

infixl 5 ◌>>=◌
abbrev pub ◌>>=◌ : {S : Type 0} → Outcome S → (S → Outcome S) → Outcome S
done s >>= k = k s
threw e s >>= k = threw e s

-- `showError` of a text: the empty text shows nothing.
unfoldable pub show_error_text : String → List Effect → List Effect
show_error_text message shown =
    if str_eq message "" then shown else error ("错误：" ++ message) ∷ shown

-- `showError` of an Axios error with a response, by the response's status.
unfoldable pub show_status : ℕ → String → List Effect → List Effect
show_status status message shown =
    if status == 401
    then redirect "/login?expired=true" ∷ shown
    else (if status == 429
        then error "错误：请求次数过多，请稍后再试！" ∷ shown
        else (if status == 500
            then error "错误：服务器内部错误，请联系管理员！" ∷ shown
            else (if status == 405
                then info "本站仅作演示之用，无服务端！" ∷ shown
                else error ("错误：" ++ message) ∷ shown)))

-- `error.response.status` of an Axios error; a missing response is a TypeError.
abbrev pub show_axios : String → Option ℕ → List Effect → Outcome (List Effect)
show_axios message none shown = threw type_error shown
show_axios message (some status) shown = done (show_status status message shown)

-- `showError`
unfoldable pub show_error : Failure → List Effect → Outcome (List Effect)
show_error (text message) shown = done (show_error_text message shown)
show_error (error_object name message response) shown =
    if str_eq message ""
    then done (error ("错误：" ++ name) ∷ shown)
    else (if str_eq name "AxiosError"
        then show_axios message response shown
        else done (error ("错误：" ++ message) ∷ shown))
