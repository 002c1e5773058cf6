-- ===== src/Mailboxes/Handlers/Accounts.antt =====
-- The accounts: their list, creation, passwords, quotas and deletion.
use mailserver_ui.Common.{
  or_null, String, Bool, true, false, Option, none, some, if◌then◌else◌, is_empty, trim, not, ltb,
  ◌&&◌, str_eq, text_length, or_else, ◌+++◌,
}
use mailserver_ui.Async.{◌>>=◌, ◌>>◌, try_catch, try_finally, await, modify, read, skip, par, zoom}
use mailserver_ui.Models.{Mailbox}
use mailserver_ui.Api.{mailboxes, MailboxesCall, features, reset_password, set_quota, navigate}
use mailserver_ui.Auth.{logout}
use mailserver_ui.Mailboxes.State.{
  PageTask, empty_create_model, empty_pw_model, message_for, is_quota,
}
use mailserver_ui.Mailboxes.Handlers.Aliases.{with_managed, load_aliases}
use mailserver_ui.Mailboxes.Handlers.Sieve.{load_sieve}

abbrev pub bad_quota : String
bad_quota = "Quota must be a number followed by K, M, G or T (e.g. 5G)."

-- `value && !QUOTA_PATTERN.test(value)`
abbrev pub is_bad_quota : String → Bool
is_bad_quota value = not (is_empty value) && not (is_quota value)

unfoldable pub password_problem : String → String → Option String
password_problem password confirm =
    if ltb (text_length password) 8
    then some "Password must be at least 8 characters."
    else if str_eq password confirm
    then none
    else some "Passwords do not match."

-- `this.managingEmail() === email`
abbrev pub is_managed : Option String → String → Bool
is_managed none email = false
is_managed (some managed) email = str_eq managed email

unfoldable pub load_mailboxes : PageTask
load_mailboxes = do
  modify (λ s. record s { loading = true; load_error = none })
  try_finally
      (try_catch
        (do
          found ← await (mailboxes MailboxesCall.list)
          modify (λ s. record s { mailboxes = found }))
        (λ _. modify (λ s. record s { load_error = some "Unable to load mailboxes." })))
      (modify (λ s. record s { loading = false }))

unfoldable pub load_features : PageTask
load_features =
    try_catch
      (do
        found ← await (mailboxes features)
        modify (λ s. record s { quotas_enabled = found.quotas_enabled }))
      (λ _. modify (λ s. record s { quotas_enabled = true }))

unfoldable pub create_call : String → String → String → PageTask
unfolding load_mailboxes
create_call address password quota = do
  modify (λ s. record s { creating = true })
  try_finally
      (try_catch
        (do
          _ ← await (mailboxes (MailboxesCall.create address password (or_null quota)))
          modify (λ s. record s {
            success_message = some ("Mailbox " +++ address +++ " created.");
            create_model = empty_create_model;
          })
          load_mailboxes)
        (λ err. modify (λ s. record s { create_error = some (message_for err) })))
      (modify (λ s. record s { creating = false }))

-- The reason to refuse the form, if any; its quota is trimmed and in capitals already.
unfoldable pub create_problem : String → String → String → Option String
unfolding password_problem
create_problem password confirm quota = elim (password_problem password confirm) [
  | some problem ↦ some problem
  | none ↦ if is_bad_quota quota then some bad_quota else none
]

unfoldable pub on_create : (String → String) → (String → String) → Bool → PageTask
unfolding create_call
on_create upper lower valid = do
  modify (λ s. record s { create_error = none; success_message = none })
  if valid
      then (do
        s ← read
        let m = s.create_model
        let quota = upper (trim m.quota)
        elim (create_problem m.password m.confirm quota) [
          | some problem ↦ modify (λ s. record s { create_error = some problem })
          | none ↦ create_call (lower (trim m.email)) m.password quota
        ])
      else skip

unfoldable pub toggle_manage : Mailbox → PageTask
unfolding load_aliases load_sieve
toggle_manage mailbox = do
  s ← read
  if is_managed s.managing_email mailbox.email
      then modify (λ s. record s { managing_email = none })
      else (do
        modify (λ s. record s {
          managing_email = some mailbox.email;
          form_error = none;
          quota_error = none;
          alias_error = none;
          sieve_error = none;
          success_message = none;
          pw_model = empty_pw_model;
          alias_model = "";
          quota_value = or_else mailbox.quota "";
        })
        par (load_aliases mailbox.email) (load_sieve mailbox.email))

unfoldable pub reset_password_call : String → String → PageTask
reset_password_call email password = do
  modify (λ s. record s { saving = true })
  try_finally
      (try_catch
        (do
          _ ← await (mailboxes (reset_password email password))
          modify (λ s. record s {
            success_message = some ("Password updated for " +++ email +++ ".");
            pw_model = empty_pw_model;
          }))
        (λ err. modify (λ s. record s { form_error = some (message_for err) })))
      (modify (λ s. record s { saving = false }))

unfoldable pub on_reset_password : Bool → PageTask
unfolding reset_password_call
on_reset_password valid = do
  modify (λ s. record s { form_error = none; success_message = none })
  if valid
      then with_managed (λ email. do
        s ← read
        elim (password_problem s.pw_model.password s.pw_model.confirm) [
          | some problem ↦ modify (λ s. record s { form_error = some problem })
          | none ↦ reset_password_call email s.pw_model.password
        ])
      else skip

unfoldable pub set_quota_call : String → String → PageTask
unfolding load_mailboxes
set_quota_call email value = do
  modify (λ s. record s { quota_error = none; success_message = none; saving_quota = true })
  try_finally
      (try_catch
        (do
          _ ← await (mailboxes (set_quota email (or_null value)))
          modify (λ s. record s {
            success_message = some (
                if is_empty value
                then "Quota cleared for " +++ email +++ "."
                else "Quota set to " +++ value +++ " for " +++ email +++ ".");
          })
          load_mailboxes)
        (λ err. modify (λ s. record s { quota_error = some (message_for err) })))
      (modify (λ s. record s { saving_quota = false }))

unfoldable pub on_save_quota : (String → String) → PageTask
unfolding set_quota_call
on_save_quota upper = with_managed (λ email. do
  s ← read
  let value = upper (trim s.quota_value)
  if is_bad_quota value
      then modify (λ s. record s { quota_error = some bad_quota })
      else set_quota_call email value)

unfoldable pub on_quota_input : String → PageTask
on_quota_input value = modify (λ s. record s { quota_value = value })

unfoldable pub on_delete : Bool → Mailbox → PageTask
unfolding load_mailboxes
on_delete confirmed mailbox =
    if confirmed
    then (do
      modify (λ s. record s {
        success_message = none;
        load_error = none;
        deleting_email = some mailbox.email;
      })
      try_finally
          (try_catch
            (do
              await (mailboxes (MailboxesCall.delete mailbox.email))
              s ← read
              if is_managed s.managing_email mailbox.email
                  then modify (λ s. record s { managing_email = none })
                  else skip
              modify (λ s. record s {
                success_message = some ("Mailbox " +++ mailbox.email +++ " deleted.");
              })
              load_mailboxes)
            (λ err. modify (λ s. record s { load_error = some (message_for err) })))
          (modify (λ s. record s { deleting_email = none })))
    else skip

unfoldable pub on_logout : PageTask
unfolding logout
on_logout = do
  modify (λ s. record s { logging_out = true })
  try_finally
      (do
        zoom (λ s. s.session) (λ a s. record s { session = a }) logout
        _ ← await (navigate "/login")
        skip)
      (modify (λ s. record s { logging_out = false }))
