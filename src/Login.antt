-- ===== src/Login.antt =====
-- The sign-in page: frontend/src/app/features/login/login.ts.
pub mod Flags
use mailserver_ui.Common.{
  String, Bool, true, false, Option, none, some, if◌then◌else◌, ◌==◌, is_empty, is_inherited,
  str_eq,
}
use mailserver_ui.Async.{
  Failure, http, other, Task, ◌>>=◌, ◌>>◌, try_catch, try_finally, await, modify, read, skip, zoom,
}
use mailserver_ui.Models.{LoginRequest}
use mailserver_ui.Api.{Call, Reply, navigate}
use mailserver_ui.Auth.{AuthState, load_config, sign_in}

pub record Page : Type 0 where
  pub session : AuthState
  pub loading_config : Bool
  pub submitting : Bool
  pub error : Option String
  pub model : LoginRequest

abbrev pub PageTask : Type 0
PageTask = Task Page Call Reply (Unit {0})

unfoldable pub message_for : Failure → String
message_for other = "Unable to sign in. Please try again."
message_for (http status detail) =
    if status == 401
    then "Invalid username or password."
    else if status == 429
    then "Too many attempts. Please try again later."
    else "Unable to sign in. Please try again."

-- `member` is what the page shows of a member of `Object.prototype`.
unfoldable pub oidc_message : (String → String) → String → String
oidc_message member reason =
    if str_eq reason "oidc"
    then "OIDC sign-in failed. Please try again."
    else if str_eq reason "state"
    then "OIDC session expired. Please retry."
    else if str_eq reason "forbidden"
    then "Your account is not allowed to access this application."
    else if str_eq reason "conflict"
    then "A local account already uses this username. Contact an administrator."
    else if str_eq reason "disabled"
    then "Your account has been deactivated. Contact an administrator."
    else if is_inherited reason
    then member reason
    else "Sign-in failed."

-- `reason` is the parameter `error` of the page's address.
unfoldable pub read_oidc_error : (String → String) → Option String → PageTask
read_oidc_error member none = skip
read_oidc_error member (some reason) =
    if is_empty reason
    then skip
    else modify (λ s. record s { error = some (oidc_message member reason) })

unfoldable pub load_config_action : PageTask
unfolding load_config
load_config_action =
    try_finally
      (try_catch (do _ ← zoom (λ s. s.session) (λ a s. record s { session = a }) load_config; skip)
        (λ err.
          modify (λ s. record s { error = some "Unable to load authentication configuration." })))
      (modify (λ s. record s { loading_config = false }))

-- The constructor: `loadConfig` is started, not awaited.
unfoldable pub open_page : (String → String) → Option String → PageTask
unfolding read_oidc_error load_config_action
open_page member reason = do read_oidc_error member reason; load_config_action

unfoldable pub on_submit : Bool → PageTask
unfolding sign_in
on_submit valid = do
  modify (λ s. record s { error = none })
  if valid
      then (do
        modify (λ s. record s { submitting = true })
        try_finally
            (try_catch
              (do
                s ← read
                _ ← zoom (λ s. s.session) (λ a s. record s { session = a }) (sign_in s.model)
                _ ← await (navigate "/dashboard")
                skip)
              (λ err. modify (λ s. record s { error = some (message_for err) })))
            (modify (λ s. record s { submitting = false })))
      else skip
