-- ===== src/Users/Passwords.antt =====
-- New passwords are checked before anything is sent.
use mailserver_ui.Common.{◌≤◌, String, true, none, some, ◌≡◌, ◌↔◌, arith, text_length, str_eq_iff}
use mailserver_ui.Async.{ok, Server, run}
use mailserver_ui.Api.{Call, Reply}
use mailserver_ui.Users.State.{Page}
use mailserver_ui.Users.Accounts.{password_problem, create_user, on_submit}

-- A password is accepted exactly if it has at least eight UTF-16 code units and equals its
-- confirmation.
pub password_problem-none_iff :
    (password confirm : String)
    → (password_problem password confirm ≡ none)
      ↔ ((8 ≤ text_length password) × (password ≡ confirm))
unfolding password_problem
password_problem-none_iff password confirm = ground (arith, str_eq_iff password confirm)

module _ (srv : Server Call Reply) (s : Page) (w : srv.World) (reason : String) where
  -- A new account whose password is too short or not confirmed reaches no server: the reason is
  -- shown and everything typed is kept.
  pub create_user_refused :
      password_problem s.user_model.password s.user_model.confirm ≡ some reason
      → run srv (create_user true) s w
        ≡ (ok tt, record s { user_creation_error = some reason; success_message = none }, w)
  unfolding run create_user
  create_user_refused h = ground arith

  -- The same for the new password of an existing account.
  pub on_submit_refused :
      password_problem s.model.password s.model.confirm ≡ some reason
      → run srv (on_submit true) s w
        ≡ (ok tt, record s { form_error = some reason; success_message = none }, w)
  unfolding run on_submit
  on_submit_refused h = ground arith
