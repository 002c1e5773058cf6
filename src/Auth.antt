-- ===== src/Auth.antt =====
-- The session as the frontend mirrors it: frontend/src/app/core/auth.service.ts, and `roleGrants` of
-- auth.models.ts. Guards, routes and the expiry of a session are child modules.
pub mod Guards
pub mod Roles
pub mod Session
pub mod Expiry
use mailserver_ui.Common.{
  ℕ, String, Bool, true, false, Option, none, some, leb, not, is_null, or_else,
}
use mailserver_ui.Async.{Task, pure, ◌>>=◌, ◌>>◌, try_catch, try_finally, await, modify}
use mailserver_ui.Models.{
  Role, guest, mailbox_manager, admin, SessionUser, AuthConfig, LoginRequest,
}
use mailserver_ui.Api.{Call, Reply, auth, AuthCall, login}

-- `ROLES.indexOf(role)`
unfoldable pub rank : Role → ℕ
rank guest = 0
rank mailbox_manager = 1
rank admin = 2

unfoldable pub role_grants : Option Role → Role → Bool
unfolding rank
role_grants none required = false
role_grants (some role) required = leb (rank required) (rank role)

pub record AuthState : Type 0 where
  pub user : Option SessionUser
  pub config : Option AuthConfig
  pub loaded : Bool

abbrev pub AuthTask : Type 0 → Type 0
AuthTask A = Task AuthState Call Reply A

abbrev pub is_authenticated : AuthState → Bool
is_authenticated s = not (is_null s.user)

-- `this._user()?.role`
abbrev pub role_of : Option SessionUser → Option Role
role_of none = none
role_of (some u) = some u.role

unfoldable pub pats_enabled : AuthState → Bool
pats_enabled s = elim s.config [ none ↦ false | some c ↦ c.pats_enabled ]

unfoldable pub is_admin : AuthState → Bool
unfolding role_grants
is_admin s = role_grants (role_of s.user) admin

unfoldable pub can_manage_mailboxes : AuthState → Bool
unfolding role_grants
can_manage_mailboxes s = role_grants (role_of s.user) mailbox_manager

unfoldable pub load_config : AuthTask AuthConfig
load_config = do
  config ← await (auth AuthCall.get_config)
  modify (λ s. record s { config = some config })
  pure config

unfoldable pub refresh_session : AuthTask (Option SessionUser)
refresh_session =
    try_finally
      (try_catch
        (do
          user ← await (auth AuthCall.me)
          modify (λ s. record s { user = some user })
          pure (some user))
        (λ _. do modify (λ s. record s { user = none }); pure none))
      (modify (λ s. record s { loaded = true }))

unfoldable pub sign_in : LoginRequest → AuthTask SessionUser
sign_in credentials = do
  user ← await (auth (login credentials))
  modify (λ s. record s { user = some user })
  pure user

unfoldable pub logout : AuthTask (Unit {0})
logout = try_finally (await (auth AuthCall.logout)) (modify (λ s. record s { user = none }))
