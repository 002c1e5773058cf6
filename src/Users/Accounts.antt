-- ===== src/Users/Accounts.antt =====
-- The handlers of the accounts tab.
use mailserver_ui.Common.{
  ℕ, String, Bool, true, false, Option, none, some, if◌then◌else◌, is_num, not, ltb, ◌&&◌, str_eq,
  text_length, ◌+++◌,
}
use mailserver_ui.Async.{◌>>=◌, ◌>>◌, try_catch, try_finally, await, modify, read, skip, par}
use mailserver_ui.Models.{User}
use mailserver_ui.Api.{users, UsersCall, change_password, set_active}
use mailserver_ui.Users.State.{
  PageTask, empty_user_model, empty_password_model, api_error_for, message_for, editing_user,
}
use mailserver_ui.Users.Groups.{load_groups}

abbrev pub min_password_length : ℕ
min_password_length = 8

abbrev pub too_short : String
too_short = "Password must be at least 8 characters."

-- The two tests on a new password, in their order: the reason to refuse it, if any.
unfoldable pub password_problem : String → String → Option String
password_problem password confirm =
    if ltb (text_length password) min_password_length
    then some too_short
    else if str_eq password confirm
    then none
    else some "Passwords do not match."

unfoldable pub load_users : PageTask
load_users = do
  modify (λ s. record s { loading = true; load_error = none })
  try_finally
      (try_catch (do us ← await (users UsersCall.list); modify (λ s. record s { users = us }))
        (λ _. modify (λ s. record s { load_error = some "Unable to load users." })))
      (modify (λ s. record s { loading = false }))

unfoldable pub start_create_user : PageTask
start_create_user =
    modify
      (λ s. record s { user_creation_error = none; success_message = none; show_user_form = true })

unfoldable pub cancel_create_user : PageTask
cancel_create_user = modify (λ s. record s {
  show_user_form = false;
  user_creation_error = none;
  user_model = empty_user_model;
})

unfoldable pub create_user_call : String → String → String → PageTask
unfolding cancel_create_user load_users
create_user_call username display_name password = do
  modify (λ s. record s { creating_user = true })
  try_finally
      (try_catch
        (do
          _ ← await (users (UsersCall.create username display_name password))
          modify (λ s. record s {
            success_message =
                some ("User \"" +++ username +++ "\" created. Add it to a group to grant a role.");
          })
          cancel_create_user
          load_users)
        (λ err. modify (λ s. record s {
          user_creation_error = some (api_error_for err "Unable to create the user.");
        })))
      (modify (λ s. record s { creating_user = false }))

unfoldable pub create_user_action : PageTask
unfolding create_user_call
create_user_action = do
  s ← read
  elim (password_problem s.user_model.password s.user_model.confirm) [
    | some problem ↦ modify (λ s. record s { user_creation_error = some problem })
    | none ↦ create_user_call s.user_model.username s.user_model.display_name s.user_model.password
  ]

unfoldable pub create_user : Bool → PageTask
unfolding create_user_action
create_user valid = do
  modify (λ s. record s { user_creation_error = none; success_message = none })
  if valid then create_user_action else skip

unfoldable pub start_edit : User → PageTask
start_edit user = modify (λ s. record s {
  editing_id = some user.id;
  form_error = none;
  success_message = none;
  model = empty_password_model;
})

unfoldable pub cancel_edit : PageTask
cancel_edit = modify (λ s. record s { editing_id = none; form_error = none })

unfoldable pub delete_user : Bool → User → PageTask
unfolding cancel_edit load_users load_groups
delete_user confirmed user =
    if confirmed
    then (do
      modify (λ s. record s {
        load_error = none;
        success_message = none;
        deleting_user_id = some user.id;
      })
      try_finally
          (try_catch
            (do
              await (users (UsersCall.delete user.id))
              modify (λ s. record s {
                success_message = some ("User \"" +++ user.username +++ "\" deleted.");
              })
              s ← read
              if is_num s.editing_id user.id then cancel_edit else skip
              par load_users load_groups)
            (λ err. modify (λ s. record s {
              load_error =
                  some (api_error_for err ("Unable to delete \"" +++ user.username +++ "\"."));
            })))
          (modify (λ s. record s { deleting_user_id = none })))
    else skip

-- Only a deactivation asks for confirmation.
unfoldable pub toggle_active : Bool → User → PageTask
unfolding load_users
toggle_active confirmed user =
    let target = not user.is_active in
    if not target && not confirmed then skip else (do
      modify (λ s. record s {
        load_error = none;
        success_message = none;
        toggling_user_id = some user.id;
      })
      try_finally
          (try_catch
            (do
              _ ← await (users (set_active user.id target))
              modify (λ s. record s {
                success_message = some (
                    "User \""
                    +++ user.username
                    +++ "\" "
                    +++ (if target then "activated" else "deactivated")
                    +++ ".");
              })
              load_users)
            (λ err. modify (λ s. record s {
              load_error = some (
                  api_error_for err (
                    "Unable to "
                    +++ (if target then "activate" else "deactivate")
                    +++ " \""
                    +++ user.username
                    +++ "\"."));
            })))
          (modify (λ s. record s { toggling_user_id = none })))

unfoldable pub change_password_call : User → String → PageTask
change_password_call target password = do
  modify (λ s. record s { saving = true })
  try_finally
      (try_catch
        (do
          _ ← await (users (change_password target.id password))
          modify (λ s. record s {
            success_message = some ("Password updated for " +++ target.username +++ ".");
            editing_id = none;
          }))
        (λ err. modify (λ s. record s { form_error = some (message_for err) })))
      (modify (λ s. record s { saving = false }))

unfoldable pub submit_password_action : PageTask
unfolding change_password_call
submit_password_action = do
  s ← read
  elim (password_problem s.model.password s.model.confirm) [
    | some problem ↦ modify (λ s. record s { form_error = some problem })
    | none ↦ elim (editing_user s) [
      | none ↦ skip
      | some target ↦ change_password_call target s.model.password
    ]
  ]

unfoldable pub on_submit : Bool → PageTask
unfolding submit_password_action
on_submit valid = do
  modify (λ s. record s { form_error = none; success_message = none })
  if valid then submit_password_action else skip
