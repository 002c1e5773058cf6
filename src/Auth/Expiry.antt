-- ===== src/Auth/Expiry.antt =====
-- Expired sessions: frontend/src/app/core/session-expiry.interceptor.ts and
-- session-expiry.service.ts, and the dialog of shared/session-expired-modal.
pub mod Laws
pub mod Prefixes
pub mod MailserverPaths
pub mod Paths
use mailserver_ui.Common.{
  String, Bool, true, false, List, [], ◌∷◌, ◌&&◌, not, if◌then◌else◌, any, ◌==◌,
}
use text.Mathlib.Text.{starts_with}
use mailserver_ui.Async.{
  Failure, http, other, Result, ok, err, Task, ◌>>=◌, ◌>>◌, try_finally, await, modify, skip, zoom,
}
use mailserver_ui.Api.{Call, Reply, navigate}
use mailserver_ui.Auth.{AuthState, logout}

abbrev pub ignored_paths : List String
ignored_paths = "/api/auth/login" ∷ "/api/auth/me" ∷ "/api/auth/config" ∷ "/api/auth/logout" ∷ []

unfoldable pub is_ignored : String → Bool
is_ignored url = any (λ path. starts_with url path) ignored_paths

abbrev pub is_unauthorized : Failure → Bool
is_unauthorized (http status detail) = status == 401
is_unauthorized other = false

-- The flag of `SessionExpiryService`.
abbrev pub notify_expired : Bool → Bool
notify_expired expired = true

abbrev pub clear_expired : Bool → Bool
clear_expired expired = false

-- One response through the interceptor: the flag, and what the caller receives.
unfoldable pub intercept : {A : Type 0} → String → Result A → Bool → Bool × Result A
intercept url (ok a) expired = (expired, ok a)
intercept url (err e) expired =
    (if is_unauthorized e && not (is_ignored url) then notify_expired expired else expired, err e)

-- The shell of the application: the session, the flag and the dialog's `signingIn`.
pub record Shell : Type 0 where
  pub session : AuthState
  pub expired : Bool
  pub signing_in : Bool

abbrev pub on_session : {A : Type 0} → Task AuthState Call Reply A → Task Shell Call Reply A
on_session = zoom (λ s. s.session) (λ a s. record s { session = a })

unfoldable pub on_sign_in : Task Shell Call Reply (Unit {0})
unfolding logout
on_sign_in = do
  modify (λ s. record s { signing_in = true })
  try_finally (do on_session logout; _ ← await (navigate "/login"); skip)
      (modify (λ s. record s { expired = clear_expired s.expired; signing_in = false }))
