-- ===== src/Users/Requests.antt =====
-- The requests that the page sends.
use mailserver_ui.Common.{ℕ, String, Bool, true, false, arith, All}
use mailserver_ui.Async.{Server}
use mailserver_ui.Async.Sent.{sent, Asks, Asks-problem, Asks-value, sent-Asks}
use mailserver_ui.Models.{User, GroupWithMembers}
use mailserver_ui.Api.{Call, Reply}
use mailserver_ui.Api.Sound.{IsSound, IsLong}
use mailserver_ui.Users.State.{Page, editing_user, on_logout}
use mailserver_ui.Users.Groups.{
  load_groups, submit_group_action, submit_group, start_editing_group, add_selected_users_to_group,
  remove_group_member, delete_group, start_create_group, start_edit_group, close_group_form,
  cancel_editing_group,
}
use mailserver_ui.Users.Accounts.{
  load_users, password_problem, create_user_call, create_user, delete_user, toggle_active,
  change_password_call, on_submit, start_create_user, cancel_create_user, start_edit, cancel_edit,
}
use mailserver_ui.Users.Passwords.{password_problem-none_iff}
use mailserver_ui.Users.Flags.{
  Action, submits_group, opens_members, adds_members, removes_member, deletes_group, creates_user,
  deletes_user, toggles_active, submits_password, opens_group_form, closes_group_form, edits_group,
  closes_members, opens_user_form, closes_user_form, opens_password_form, closes_password_form,
  users_action, opens_users, opens_groups, logs_out,
}

create_user_call-Asks :
    (username shown password : String)
    → IsLong password
    → Asks IsSound (create_user_call username shown password)
unfolding create_user_call
create_user_call-Asks username shown password long = ground arith

create_user-Asks : (valid : Bool) → Asks IsSound (create_user valid)
unfolding create_user
create_user-Asks false = λ _. tt
create_user-Asks true = λ _ s.
    let m = s.user_model in
    Asks-problem IsSound (password_problem m.password m.confirm) _ _ (λ _ _. tt)
      (λ fine.
        create_user_call-Asks m.username m.display_name m.password
          ((password_problem-none_iff m.password m.confirm).0 fine).0)

change_password_call-Asks :
    (target : User) (password : String)
    → IsLong password
    → Asks IsSound (change_password_call target password)
unfolding change_password_call
change_password_call-Asks target password long = ground arith

on_submit-Asks : (valid : Bool) → Asks IsSound (on_submit valid)
unfolding on_submit
on_submit-Asks false = λ _. tt
on_submit-Asks true = λ _ s.
    let m = s.model in
    Asks-problem IsSound (password_problem m.password m.confirm) _ _ (λ _ _. tt)
      (λ fine.
        Asks-value IsSound (editing_user s) _ _
          (λ target.
            change_password_call-Asks target m.password
              ((password_problem-none_iff m.password m.confirm).0 fine).0)
          tt)

submit_group_action-Asks : Asks IsSound submit_group_action
unfolding submit_group_action
submit_group_action-Asks = ground arith

submit_group-Asks : (valid : Bool) → Asks IsSound (submit_group valid)
unfolding submit_group
submit_group-Asks false = λ _. tt
submit_group-Asks true = λ _. submit_group_action-Asks

add_selected_users_to_group-Asks : Asks IsSound add_selected_users_to_group
unfolding add_selected_users_to_group
add_selected_users_to_group-Asks = ground arith

remove_group_member-Asks : (u : User) → Asks IsSound (remove_group_member u)
unfolding remove_group_member
remove_group_member-Asks u = ground arith

start_editing_group-Asks : (id : ℕ) → Asks IsSound (start_editing_group id)
unfolding start_editing_group
start_editing_group-Asks id = ground arith

delete_group-Asks : (c : Bool) (g : GroupWithMembers) → Asks IsSound (delete_group c g)
unfolding delete_group
delete_group-Asks c g = ground arith

delete_user-Asks : (c : Bool) (u : User) → Asks IsSound (delete_user c u)
unfolding delete_user
delete_user-Asks c u = ground arith

toggle_active-Asks : (c : Bool) (u : User) → Asks IsSound (toggle_active c u)
unfolding toggle_active
toggle_active-Asks c u = ground arith

users_action-Asks : (a : Action) → Asks IsSound (users_action a)
unfolding users_action start_create_group close_group_form start_edit_group cancel_editing_group
    start_create_user cancel_create_user start_edit cancel_edit load_users load_groups on_logout
users_action-Asks (submits_group valid) = submit_group-Asks valid
users_action-Asks (opens_members id) = start_editing_group-Asks id
users_action-Asks adds_members = add_selected_users_to_group-Asks
users_action-Asks (removes_member u) = remove_group_member-Asks u
users_action-Asks (deletes_group c g) = delete_group-Asks c g
users_action-Asks (creates_user valid) = create_user-Asks valid
users_action-Asks (deletes_user c u) = delete_user-Asks c u
users_action-Asks (toggles_active c u) = toggle_active-Asks c u
users_action-Asks (submits_password valid) = on_submit-Asks valid
users_action-Asks opens_group_form = λ _. tt
users_action-Asks closes_group_form = λ _. tt
users_action-Asks (edits_group g) = λ _. tt
users_action-Asks closes_members = λ _. tt
users_action-Asks opens_user_form = λ _. tt
users_action-Asks closes_user_form = λ _. tt
users_action-Asks (opens_password_form u) = λ _. tt
users_action-Asks closes_password_form = λ _. tt
users_action-Asks opens_users = ground arith
users_action-Asks opens_groups = ground arith
users_action-Asks logs_out = ground arith

-- Whatever the user does on the page, whatever its signals hold and whatever the server answers,
-- every new password that is sent has at least eight UTF-16 code units, every group is sent with a
-- name that is not blank, and no empty batch of members is sent.
pub users_action-sent :
    (srv : Server Call Reply) (s : Page) (w : srv.World) (a : Action)
    → All IsSound (sent srv (users_action a) s w)
users_action-sent srv s w a = sent-Asks IsSound srv (users_action a) (users_action-Asks a) s w
