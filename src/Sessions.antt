-- ===== src/Sessions.antt =====
-- The session of a user (web-src/web/src): the context that holds the user and the copy in the
-- local storage; Login is components/LoginForm.js, OAuth is components/GitHubOAuth.js and
-- components/LarkOAuth.js, Countdown and Reset are components/PasswordResetForm.js.
pub mod Login
pub mod OAuth
pub mod Countdown
pub mod Reset
pub mod Tests
use lite_nova.Prelude.{ℕ, String, List, [], ◌∷◌, Option, none, some}
use lite_nova.Effects.{Effect, show_error_text}

-- The user that the server sends.
pub record Account : Type 0 where
  pub id : ℕ
  pub username : String
  pub role : ℕ
  pub status : ℕ

-- The actions of context/User/reducer.js.
pub data UserAction : Type 0 where
  login : Account → UserAction
  logout unknown : UserAction

-- `reducer` of context/User/reducer.js
unfoldable pub user_reducer : Option Account → UserAction → Option Account
user_reducer state (login payload) = some payload
user_reducer state logout = none
user_reducer state unknown = state

-- What the pages of a session share: the user of the context, the one in the local storage, the
-- addresses that were navigated to, the last one first, and the messages.
pub record Shell : Type 0 where
  pub user : Option Account
  pub stored_user : Option Account
  pub visited : List String
  pub shown : List Effect

abbrev pub navigate : String → Shell → Shell
navigate path s = record s { visited = path ∷ s.visited }

abbrev pub show : Effect → Shell → Shell
show e s = record s { shown = e ∷ s.shown }

-- `showError` of a text
unfoldable pub complain : String → Shell → Shell
unfolding show_error_text
complain message s = record s { shown = show_error_text message s.shown }

-- `userDispatch({ type: 'login', payload: data })` and the copy in the local storage
unfoldable pub log_in : Account → Shell → Shell
unfolding user_reducer
log_in account s = record s {
  user = user_reducer s.user (login account);
  stored_user = some account;
}

-- What `PrivateRoute` shows: the page, or the login.
unfoldable pub private_route : {A : Type 0} → A → A → Shell → A
private_route children to_login s = elim s.stored_user [ none ↦ to_login | some account ↦ children ]
