-- ===== src/Sessions/Reset.antt =====
-- components/PasswordResetForm.js.
use lite_nova.Prelude.{
  ℕ, ◌-◌, ltb, ap, ◌≡◌, refl, ◌∙◌, Bool, true, false, ◌&&◌, String, List, ◌∷◌, Option, none, some,
  str_eq, if◌then◌else◌, Bool-cases, inl, inr,
}
use lite_nova.Effects.{
  Effect, success, info, show_error_text, Reply, rejected, resolved, Outcome, done, threw,
}
use lite_nova.Sessions.Countdown.{Countdown, ready, press, running, seconds, seconds-press}

pub record ResetForm : Type 0 where
  pub email : String
  pub loading : Bool
  pub turnstile_enabled : Bool
  pub turnstile_site_key : String
  pub turnstile_token : String
  pub button : Countdown
  pub shown : List Effect

abbrev show : Effect → ResetForm → ResetForm
show e s = record s { shown = e ∷ s.shown }

-- The effect that runs when the form is mounted, with the `turnstile_check` and the
-- `turnstile_site_key` of the stored status, if there is one.
unfoldable pub mount : Option (Bool × String) → ResetForm → ResetForm
mount none s = s
mount (some (check, site_key)) s =
    if check then record s { turnstile_enabled = true; turnstile_site_key = site_key } else s

-- `handleChange`; the form has one field.
unfoldable pub handle_change : (value : String) → ResetForm → ResetForm
handle_change value s = record s { email = value }

-- Whether a submit of this render asks the server.
unfoldable pub is_sent : ResetForm → Bool
is_sent seen =
    if str_eq seen.email ""
    then false
    else (if seen.turnstile_enabled && str_eq seen.turnstile_token "" then false else true)

-- `handleSubmit`, up to its request
unfoldable pub handle_submit : (seen : ResetForm) → ResetForm → ResetForm
handle_submit seen s =
    let s' = record s { button = press s.button } in
    if str_eq seen.email ""
    then s'
    else (if seen.turnstile_enabled && str_eq seen.turnstile_token ""
        then show (info "请稍后几秒重试，Turnstile 正在检查用户环境！") s'
        else record s' { loading = true })

-- `handleSubmit`, from the reply on
unfoldable pub take_reply : Reply Unit → ResetForm → Outcome ResetForm
unfolding show_error_text
take_reply (rejected e) s = threw e s
take_reply (resolved a) s = done (
    if a.success
    then record s { shown = success "auth.reset.notice" ∷ s.shown; email = ""; loading = false }
    else record s { shown = show_error_text a.message s.shown; button = ready; loading = false })

-- The form after some seconds in which nothing else happens.
unfoldable pub wait : ℕ → ResetForm → ResetForm
unfolding seconds
wait n s = record s { button = seconds n s.button }

handle_submit-button : (seen s : ResetForm) → (handle_submit seen s).button ≡ press s.button
unfolding handle_submit
handle_submit-button seen s = elim (Bool-cases (str_eq seen.email "")) [
  | inl e ↦ rw e refl
  | inr e ↦ rw e (captcha (seen.turnstile_enabled && str_eq seen.turnstile_token ""))
]
  where
    captcha :
        (b : Bool)
        → (if b
            then show (info "请稍后几秒重试，Turnstile 正在检查用户环境！") (record s { button = press s.button })
            else record s { button = press s.button; loading = true }).button
          ≡ press s.button
    captcha true = refl
    captcha false = refl

-- A submit on a fresh form disables the button for half a minute, whether or not the server is
-- asked: each second counts down one, and after 30 seconds in which nothing else happens the button
-- is enabled again with the full count.
pub wait-handle_submit :
    (n : ℕ) (seen s : ResetForm)
    → s.button ≡ ready
    → (wait n (handle_submit seen s)).button ≡ (if ltb n 30 then running (30 - n) else ready)
unfolding wait
wait-handle_submit n seen s h =
    ap (seconds n) (handle_submit-button seen s ∙ ap press h) ∙ seconds-press n 29 false
