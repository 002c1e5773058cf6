-- ===== src/Profile.antt =====
-- The profile page: frontend/src/app/features/profile/profile.ts. The verdict of the forms library
-- (`valid`) and the answer to a dialog (`confirmed`) are arguments.
pub mod Flags
pub mod Secrets
pub mod Requests
use mailserver_ui.Common.{
  ℕ, String, Bool, true, false, Option, none, some, List, [], if◌then◌else◌, ◌==◌, is_empty, trim,
  str_eq, ltb, text_length, ◌+++◌,
}
use mailserver_ui.Async.{
  Failure, http, other, Task, ◌>>=◌, ◌>>◌, try_catch, try_finally, await, modify, read, skip,
}
use mailserver_ui.Models.{AuthProvider, local, oidc, User, Pat, PatCreated}
use mailserver_ui.Api.{
  Call, Reply, users, UsersCall, change_own_password, pats, PatsCall, revoke, clipboard,
}

pub record PasswordModel : Type 0 where
  pub current : String
  pub password : String
  pub confirm : String

abbrev pub empty_password_model : PasswordModel
empty_password_model = record { current = ""; password = ""; confirm = "" }

pub record Page : Type 0 where
  pub profile : Option User
  pub loading : Bool
  pub load_error : Option String
  pub saving : Bool
  pub form_error : Option String
  pub success_message : Option String
  pub model : PasswordModel
  pub pats : List Pat
  pub loading_pats : Bool
  pub pats_error : Option String
  pub show_pat_form : Bool
  pub creating_pat : Bool
  pub pat_form_error : Option String
  pub revoking_pat_id : Option ℕ
  pub expires_in_days : Option ℕ
  pub new_pat : Option PatCreated
  pub copied_secret : Bool
  pub pat_name : String

abbrev pub PageTask : Type 0
PageTask = Task Page Call Reply (Unit {0})

-- `EXPIRY_OPTIONS[0].days`
abbrev pub default_expiry : Option ℕ
default_expiry = some 30

abbrev pub is_local : AuthProvider → Bool
is_local local = true
is_local oidc = false

unfoldable pub is_local_account : Page → Bool
is_local_account s = elim s.profile [ none ↦ false | some u ↦ is_local u.provider ]

-- `past` tells of a timestamp that it is not after the present.
unfoldable pub is_expired : (String → Bool) → Pat → Bool
is_expired past pat = elim pat.expires_at [ none ↦ false | some at ↦ past at ]

-- `number` is the engine's `Number`.
unfoldable pub on_expiry_change : (String → ℕ) → String → PageTask
on_expiry_change number raw =
    modify (λ s. record s { expires_in_days = if is_empty raw then none else some (number raw) })

unfoldable pub start_create_pat : PageTask
start_create_pat = modify (λ s. record s {
  new_pat = none;
  pat_form_error = none;
  pat_name = "";
  expires_in_days = default_expiry;
  show_pat_form = true;
})

unfoldable pub cancel_create_pat : PageTask
cancel_create_pat =
    modify (λ s. record s { show_pat_form = false; pat_form_error = none; pat_name = "" })

unfoldable pub api_error_for : Failure → String → String
api_error_for other fallback = fallback
api_error_for (http status none) fallback = fallback
api_error_for (http status (some detail)) fallback = if is_empty detail then fallback else detail

abbrev pub status_message : ℕ → String
status_message status =
    if status == 422
    then "Password must be at least 8 characters."
    else "Unable to update the password. Please try again."

unfoldable pub message_for : Failure → String
message_for other = "Unable to update the password. Please try again."
message_for (http status none) = status_message status
message_for (http status (some detail)) = if is_empty detail then status_message status else detail

unfoldable pub load_pats : PageTask
load_pats = do
  modify (λ s. record s { loading_pats = true })
  try_finally
      (try_catch (do found ← await (pats PatsCall.list); modify (λ s. record s { pats = found }))
        (λ _. modify (λ s. record s { pats_error = some "Unable to load your access tokens." })))
      (modify (λ s. record s { loading_pats = false }))

unfoldable pub load_profile : PageTask
load_profile = do
  modify (λ s. record s { loading = true; load_error = none })
  try_finally
      (try_catch (do u ← await (users UsersCall.me); modify (λ s. record s { profile = some u }))
        (λ _. modify (λ s. record s { load_error = some "Unable to load your profile." })))
      (modify (λ s. record s { loading = false }))

unfoldable pub create_pat_call : String → PageTask
unfolding load_pats
create_pat_call name = do
  modify (λ s. record s { creating_pat = true })
  try_finally
      (try_catch
        (do
          s ← read
          created ← await (pats (PatsCall.create name s.expires_in_days))
          modify (λ s. record s {
            new_pat = some created;
            copied_secret = false;
            show_pat_form = false;
            pat_name = "";
          })
          load_pats)
        (λ err. modify (λ s. record s {
          pat_form_error = some (api_error_for err "Unable to create the token.");
        })))
      (modify (λ s. record s { creating_pat = false }))

unfoldable pub create_pat : Bool → PageTask
unfolding create_pat_call
create_pat valid = do
  modify (λ s. record s { pat_form_error = none })
  if valid
      then (do
        s ← read
        let name = trim s.pat_name
        if is_empty name
            then modify (λ s. record s { pat_form_error = some "A name is required." })
            else create_pat_call name)
      else skip

-- `this.newPat()?.id === id`
abbrev pub is_shown : Option PatCreated → ℕ → Bool
is_shown none id = false
is_shown (some p) id = p.id == id

unfoldable pub revoke_pat : Bool → Pat → PageTask
unfolding load_pats
revoke_pat confirmed pat =
    if confirmed
    then (do
      modify (λ s. record s { pats_error = none; revoking_pat_id = some pat.id })
      try_finally
          (try_catch
            (do
              await (pats (revoke pat.id))
              s ← read
              if is_shown s.new_pat pat.id then modify (λ s. record s { new_pat = none }) else skip
              load_pats)
            (λ err. modify (λ s. record s {
              pats_error = some (api_error_for err ("Unable to revoke \"" +++ pat.name +++ "\"."));
            })))
          (modify (λ s. record s { revoking_pat_id = none })))
    else skip

unfoldable pub copy_secret : PageTask
copy_secret = do
  s ← read
  elim s.new_pat [
    | none ↦ skip
    | some p ↦
        if is_empty p.token
        then skip
        else try_catch
            (do await (clipboard p.token); modify (λ s. record s { copied_secret = true }))
            (λ _. modify (λ s. record s {
              pats_error = some "Unable to copy the token. Select it and copy it manually.";
            }))
  ]

unfoldable pub dismiss_new_pat : PageTask
dismiss_new_pat = modify (λ s. record s { new_pat = none; copied_secret = false })

unfoldable pub password_problem : String → String → Option String
password_problem password confirm =
    if ltb (text_length password) 8
    then some "Password must be at least 8 characters."
    else if str_eq password confirm
    then none
    else some "Passwords do not match."

unfoldable pub change_password_call : String → String → PageTask
change_password_call current password = do
  modify (λ s. record s { saving = true })
  try_finally
      (try_catch
        (do
          _ ← await (users (change_own_password current password))
          modify (λ s. record s {
            success_message = some "Your password has been updated.";
            model = empty_password_model;
          }))
        (λ err. modify (λ s. record s { form_error = some (message_for err) })))
      (modify (λ s. record s { saving = false }))

unfoldable pub on_submit : Bool → PageTask
unfolding change_password_call
on_submit valid = do
  modify (λ s. record s { form_error = none; success_message = none })
  if valid
      then (do
        s ← read
        elim (password_problem s.model.password s.model.confirm) [
          | some problem ↦ modify (λ s. record s { form_error = some problem })
          | none ↦ change_password_call s.model.current s.model.password
        ])
      else skip
