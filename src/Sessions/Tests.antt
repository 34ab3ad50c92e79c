-- ===== src/Sessions/Tests.antt =====
-- The theorems about sessions on one user.
use lite_nova.Prelude.{◌≡◌, refl, true, false, String, [], ◌∷◌, none, some}
use lite_nova.Effects.{Reply, resolved, Outcome}
use lite_nova.Sessions.{Account, Shell}
use lite_nova.Sessions.Login.{LoginForm, is_complete, handle_submit, handle_submit-user}
use lite_nova.Sessions.OAuth.{processing, Page, ended, mount, mount-once}
use lite_nova.Sessions.Countdown.{ready}
use lite_nova.Sessions.Reset.{ResetForm, wait, wait-handle_submit}
use lite_nova.Sessions.Reset

abbrev ann : Account
ann = record { id = 1; username = "ann"; role = 1; status = 1 }

abbrev shell : Shell
shell = record { user = none; stored_user = none; visited = []; shown = [] }

abbrev form : LoginForm
form = record {
  username = "ann";
  password = "secret";
  verification_code = "";
  loading = false;
  show_wechat_login_modal = false;
  shell = shell;
}

abbrev accepts : String → String → Reply Account
accepts username password = resolved (record { success = true; message = ""; payload = ann })

abbrev refused : Reply Account
refused = resolved (record { success = false; message = "no"; payload = ann })

handle_submit-user_example :
    let s = handle_submit form accepts form in
    (s.loading ≡ false) × (s.shell.user ≡ some ann) × (s.shell.stored_user ≡ some ann)
unfolding is_complete
handle_submit-user_example = handle_submit-user form accepts form refl

abbrev page : Page
page = record { shell = shell; prompt = processing }

mount-once_example :
    (o : Outcome Page) × (mount (refused ∷ refused ∷ []) page ≡ ended o (refused ∷ []))
mount-once_example = mount-once refused (refused ∷ []) page

abbrev reset : ResetForm
reset = record {
  email = "";
  loading = false;
  turnstile_enabled = false;
  turnstile_site_key = "";
  turnstile_token = "";
  button = ready;
  shown = [];
}

wait-handle_submit_example : (wait 40 (Reset.handle_submit reset reset)).button ≡ ready
wait-handle_submit_example = wait-handle_submit 40 reset reset refl
