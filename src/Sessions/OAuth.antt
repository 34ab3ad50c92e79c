-- ===== src/Sessions/OAuth.antt =====
-- `sendCode` of components/GitHubOAuth.js and components/LarkOAuth.js, which differ in the address
-- that is asked.
use Prim.Native.String.{◌++◌ as ◌<>◌}
use lite_nova.Prelude.{
  ℕ, suc, ◌≡◌, refl, String, List, [], ◌∷◌, ◌==◌, str_eq, if◌then◌else◌, Bool-cases, inl, inr,
}
use lite_nova.Effects.{success, open_window, Reply, rejected, resolved, Outcome, done, threw}
use lite_nova.Sessions.{Account, Shell, navigate, show, complain, log_in}

-- `onGitHubOAuthClicked` and `onLarkOAuthClicked` of components/utils.js, with the reply that
-- `getOAuthState` awaits; `link` makes the address of the state.
unfoldable pub on_oauth_clicked : (link : String → String) → Reply String → Shell → Outcome Shell
unfolding complain
on_oauth_clicked link (rejected e) s = threw e s
on_oauth_clicked link (resolved a) s = done (
    if a.success
    then (if str_eq a.payload "" then s else show (open_window (link a.payload)) s)
    else complain a.message s)

unfoldable pub github_link : (github_client_id state : String) → String
github_link github_client_id state =
    "https://github.com/login/oauth/authorize?client_id="
    <> (github_client_id <> ("&state=" <> (state <> "&scope=user:email")))

unfoldable pub lark_link : (origin lark_client_id state : String) → String
lark_link origin lark_client_id state =
    "https://open.feishu.cn/open-apis/authen/v1/index?redirect_uri="
    <> (origin <> ("/oauth/lark&app_id=" <> (lark_client_id <> ("&state=" <> state))))

-- The text of the page.
pub data Prompt : Type 0 where
  processing redirecting : Prompt
  retrying : (count : ℕ) → Prompt

pub record Page : Type 0 where
  pub shell : Shell
  pub prompt : Prompt

-- The call ends, and the replies behind it are not asked for; or it waits for another reply.
pub data Progress : Type 0 where
  ended : Outcome Page → List (Reply Account) → Progress
  waiting : Page → Progress

-- What a reply of success does.
unfoldable pub accept : (message : String) → Account → Shell → Shell
unfolding log_in
accept message account s =
    if str_eq message "bind"
    then navigate "/setting" (show (success "绑定成功！") s)
    else navigate "/" (show (success "登录成功！") (log_in account s))

-- `sendCode`, where the server gives these replies, one for each request
unfoldable pub send_code : List (Reply Account) → (count : ℕ) → Page → Progress
unfolding accept complain
send_code [] count p = waiting p
send_code (rejected e ∷ replies) count p = ended (threw e p) replies
send_code (resolved a ∷ replies) count p =
    let failed = complain a.message p.shell in
    let rest =
      send_code replies (suc count) (record { shell = failed; prompt = retrying (suc count) }) in
    if a.success
    then ended (done (record p { shell = accept a.message a.payload p.shell })) replies
    else (if count == 0
        then ended (done (record { shell = navigate "/setting" failed; prompt = redirecting }))
            replies
        else rest)

-- The effect that runs when the page is mounted.
unfoldable pub mount : List (Reply Account) → Page → Progress
unfolding send_code
mount replies p = send_code replies 0 p

-- The page ends with the first reply, whatever it is: no second request is made, although the code
-- has a prompt for retries.
pub mount-once :
    (r : Reply Account) (replies : List (Reply Account)) (p : Page)
    → (o : Outcome Page) × (mount (r ∷ replies) p ≡ ended o replies)
unfolding mount send_code
mount-once (rejected e) replies p = (threw e p, refl)
mount-once (resolved a) replies p = elim (Bool-cases a.success) [
  | inl e ↦ (done (record p { shell = accept a.message a.payload p.shell }), rw e refl)
  | inr e ↦ (
    done
        (record { shell = navigate "/setting" (complain a.message p.shell); prompt = redirecting }),
    rw e refl,
  )
]
