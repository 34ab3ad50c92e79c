-- ===== src/Sessions/Login.antt =====
-- components/LoginForm.js.
use lite_nova.Prelude.{
  ◌≡◌, refl, Bool, true, false, ◌&&◌, String, Option, none, some, str_eq, if◌then◌else◌, Bool-cases,
  inl, inr,
}
use lite_nova.Effects.{
  success, warning, message_of, Reply, rejected, resolved, Outcome, done, threw,
}
use lite_nova.Sessions.{Account, Shell, navigate, show, complain, user_reducer, log_in}

pub record LoginForm : Type 0 where
  pub username : String
  pub password : String
  pub verification_code : String
  pub loading : Bool
  pub show_wechat_login_modal : Bool
  pub shell : Shell

abbrev set_loading : Bool → LoginForm → LoginForm
set_loading loading s = record s { loading = loading }

-- The effect that runs when the form is mounted, as to its messages.
unfoldable pub mount : (expired : Bool) → LoginForm → LoginForm
unfolding complain
mount expired s =
    if expired then record s { shell = complain "messages.error.login_expired" s.shell } else s

-- `handleChange`, by the name of the field
unfoldable pub handle_change : (name value : String) → LoginForm → LoginForm
handle_change name value s =
    if str_eq name "username"
    then record s { username = value }
    else (if str_eq name "password"
        then record s { password = value }
        else (if str_eq name "wechat_verification_code"
            then record s { verification_code = value }
            else s))

-- Whether the login is sent at all.
unfoldable pub is_complete : LoginForm → Bool
is_complete s =
    if str_eq s.username "" then false else (if str_eq s.password "" then false else true)

-- The page behind a login, and the warning about the first password.
unfoldable pub enter : (seen : LoginForm) → Shell → Shell
enter seen s =
    if str_eq seen.username "root" && str_eq seen.password "123456"
    then show (warning "messages.error.root_password") (navigate "/user/edit" s)
    else navigate "/dashboard" s

-- What a reply does, up to `finally`.
unfoldable pub take_reply : (seen : LoginForm) → Reply Account → Shell → Shell
unfolding enter log_in complain
take_reply seen (rejected e) s =
    complain (if str_eq (message_of e) "" then "登录失败" else message_of e) s
take_reply seen (resolved a) s =
    if a.success
    then enter seen (show (success "messages.success.login") (log_in a.payload s))
    else complain a.message s

-- `handleSubmit`
unfoldable pub handle_submit :
    (seen : LoginForm) → (api : String → String → Reply Account) → LoginForm → LoginForm
unfolding is_complete take_reply complain
handle_submit seen api s =
    if is_complete seen
    then record s {
      shell = take_reply seen (api seen.username seen.password) s.shell;
      loading = false;
    }
    else record s { shell = complain "请输入用户名和密码" s.shell }

-- `onSubmitWeChatVerificationCode`
unfoldable pub on_submit_wechat_verification_code :
    (seen : LoginForm) → (api : String → Reply Account) → LoginForm → Outcome LoginForm
unfolding log_in complain
on_submit_wechat_verification_code seen api s = elim (api seen.verification_code) [
  | rejected e ↦ threw e s
  | resolved a ↦
      if a.success
      then done (record s {
        shell = show (success "messages.success.login") (navigate "/" (log_in a.payload s.shell));
        show_wechat_login_modal = false;
      })
      else done (record s { shell = complain a.message s.shell })
]

-- The user that a reply logs in.
abbrev pub account_of : Reply Account → Option Account
account_of (rejected e) = none
account_of (resolved a) = if a.success then some a.payload else none

-- `or`
abbrev pub or_else : Option Account → Option Account → Option Account
or_else none old = old
or_else (some account) old = some account

-- Whatever a form that is complete gets as a reply, a rejection included, the form is not left
-- loading, and the context and the local storage both hold the user of a successful reply, or what
-- they held before.
pub handle_submit-user :
    (seen : LoginForm) (api : String → String → Reply Account) (s : LoginForm)
    → is_complete seen ≡ true
    → let s' = handle_submit seen api s in
      let account = account_of (api seen.username seen.password) in
      (s'.loading ≡ false)
      × (s'.shell.user ≡ or_else account s.shell.user)
      × (s'.shell.stored_user ≡ or_else account s.shell.stored_user)
unfolding handle_submit
handle_submit-user seen api s h =
    let (user, stored) = of_reply (api seen.username seen.password) in rw h (refl, user, stored)
  where
    enter-user :
        (t : Shell) → ((enter seen t).user ≡ t.user) × ((enter seen t).stored_user ≡ t.stored_user)
    enter-user t =
        unfold enter in
        elim (Bool-cases (str_eq seen.username "root" && str_eq seen.password "123456")) [
          | inl e ↦ rw e (refl, refl)
          | inr e ↦ rw e (refl, refl)
        ]

    of_reply :
        (r : Reply Account)
        → ((take_reply seen r s.shell).user ≡ or_else (account_of r) s.shell.user)
          × ((take_reply seen r s.shell).stored_user ≡ or_else (account_of r) s.shell.stored_user)
    of_reply (rejected e) = unfold take_reply complain in (refl, refl)
    of_reply (resolved a) = elim (Bool-cases a.success) [
      | inl e ↦
          let t = show (success "messages.success.login") (log_in a.payload s.shell) in
          unfold take_reply in rw e (unfold log_in user_reducer in enter-user t)
      | inr e ↦ unfold take_reply complain in rw e (refl, refl)
    ]
