-- ===== src/Auth/Guards.antt =====
-- The route guards, frontend/src/app/core/auth.guard.ts, and which route each protects,
-- frontend/src/app/app.routes.ts. A guard admits the navigation or answers with another path.
pub mod Laws
use mailserver_ui.Common.{String, Bool, List, [], ◌∷◌, Option, none, some, if◌then◌else◌, str_eq}
use mailserver_ui.Async.{Task, pure, ◌>>=◌, ◌>>◌, read, skip}
use mailserver_ui.Models.{Role, mailbox_manager, admin, SessionUser}
use mailserver_ui.Auth.{
  role_grants, AuthState, AuthTask, is_authenticated, role_of, refresh_session,
}

pub data Decision : Type 0 where
  allow : Decision
  redirect : String → Decision

-- Without a session probed, probe it.
unfoldable pub ensure_loaded : AuthTask (Unit {0})
unfolding refresh_session
ensure_loaded = do s ← read; if s.loaded then skip else (do _ ← refresh_session; skip)

unfoldable pub require_role : Role → AuthTask Decision
unfolding ensure_loaded role_grants
require_role required = do
  ensure_loaded
  s ← read
  pure (
      if is_authenticated s
      then if role_grants (role_of s.user) required then allow else redirect "/dashboard"
      else redirect "/login")

unfoldable pub auth_guard : AuthTask Decision
unfolding ensure_loaded
auth_guard = do
  ensure_loaded
  s ← read
  pure (if is_authenticated s then allow else redirect "/login")

unfoldable pub guest_guard : AuthTask Decision
unfolding ensure_loaded
guest_guard = do
  ensure_loaded
  s ← read
  pure (if is_authenticated s then redirect "/dashboard" else allow)

pub data Guard : Type 0 where
  for_user for_guest for_admin for_mailbox_manager : Guard

unfoldable pub run_guard : Guard → AuthTask Decision
unfolding auth_guard guest_guard require_role
run_guard for_user = auth_guard
run_guard for_guest = guest_guard
run_guard for_admin = require_role admin
run_guard for_mailbox_manager = require_role mailbox_manager

-- The routes that stand after the one of the mail server, with their guard.
abbrev pub later_routes : List (String × Guard)
later_routes =
    ("/fail2ban", for_admin)
    ∷ ("/users", for_admin)
    ∷ ("/audit", for_admin)
    ∷ ("/settings", for_admin)
    ∷ []

-- The top-level routes that load a page, with their guard.
abbrev pub guarded_routes : List (String × Guard)
guarded_routes =
    ("/login", for_guest)
    ∷ ("/dashboard", for_user)
    ∷ ("/about", for_user)
    ∷ ("/profile", for_user)
    ∷ ("/mailboxes", for_mailbox_manager)
    ∷ ("/mailserver", for_admin)
    ∷ later_routes

unfoldable pub guard_of : String → List (String × Guard) → Option Guard
guard_of path [] = none
guard_of path ((p, g) ∷ routes) = if str_eq p path then some g else guard_of path routes
