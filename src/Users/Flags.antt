-- ===== src/Users/Flags.antt =====
-- Every handler of the page, whatever the server answers and in whichever order, ends with its
-- spinner off, and each but the sign-out traps its failures.
use mailserver_ui.Common.{ℕ, Bool, true, false, Option, none, ◌≡◌, arith}
use mailserver_ui.Async.{Result, ok, Server, run}
use mailserver_ui.Models.{User, GroupWithMembers}
use mailserver_ui.Api.{Call, Reply}
use mailserver_ui.Users.State.{Page, PageTask, on_logout}
use mailserver_ui.Users.Groups.{
  load_groups, start_create_group, start_edit_group, close_group_form, submit_group,
  start_editing_group, cancel_editing_group, add_selected_users_to_group, remove_group_member,
  delete_group,
}
use mailserver_ui.Users.Accounts.{
  load_users, start_create_user, cancel_create_user, create_user, start_edit, cancel_edit,
  delete_user, toggle_active, on_submit,
}

-- What the user can do on the page.
pub data Action : Type 0 where
  submits_group : Bool → Action
  opens_group_form closes_group_form : Action
  edits_group : GroupWithMembers → Action
  opens_members : ℕ → Action
  closes_members adds_members : Action
  removes_member : User → Action
  deletes_group : Bool → GroupWithMembers → Action
  opens_user_form closes_user_form : Action
  creates_user : Bool → Action
  deletes_user : Bool → User → Action
  toggles_active : Bool → User → Action
  opens_password_form : User → Action
  closes_password_form : Action
  submits_password : Bool → Action
  opens_users opens_groups logs_out : Action

unfoldable pub users_action : Action → PageTask
users_action (submits_group valid) = submit_group valid
users_action opens_group_form = start_create_group
users_action closes_group_form = close_group_form
users_action (edits_group g) = start_edit_group g
users_action (opens_members id) = start_editing_group id
users_action closes_members = cancel_editing_group
users_action adds_members = add_selected_users_to_group
users_action (removes_member u) = remove_group_member u
users_action (deletes_group confirmed g) = delete_group confirmed g
users_action opens_user_form = start_create_user
users_action closes_user_form = cancel_create_user
users_action (creates_user valid) = create_user valid
users_action (deletes_user confirmed u) = delete_user confirmed u
users_action (toggles_active confirmed u) = toggle_active confirmed u
users_action (opens_password_form u) = start_edit u
users_action closes_password_form = cancel_edit
users_action (submits_password valid) = on_submit valid
users_action opens_users = load_users
users_action opens_groups = load_groups
users_action logs_out = on_logout

-- The spinners of the page.
pub record Spinners : Type 0 where
  pub loading : Bool
  pub creating_user : Bool
  pub deleting_user_id : Option ℕ
  pub toggling_user_id : Option ℕ
  pub saving_group : Bool
  pub adding_members : Bool
  pub loading_members : Bool
  pub removing_member_id : Option ℕ
  pub saving : Bool
  pub logging_out : Bool

abbrev pub spinners : Page → Spinners
spinners s = record {
  loading = s.loading;
  creating_user = s.creating_user;
  deleting_user_id = s.deleting_user_id;
  toggling_user_id = s.toggling_user_id;
  saving_group = s.saving_group;
  adding_members = s.adding_members;
  loading_members = s.loading_members;
  removing_member_id = s.removing_member_id;
  saving = s.saving;
  logging_out = s.logging_out;
}

-- No operation is in progress.
abbrev pub IsIdle : Page → Type 0
IsIdle s = spinners s ≡ record {
  loading = false;
  creating_user = false;
  deleting_user_id = none;
  toggling_user_id = none;
  saving_group = false;
  adding_members = false;
  loading_members = false;
  removing_member_id = none;
  saving = false;
  logging_out = false;
}

-- How a handler ends: a sign-out with no user in the session, whether it fails or not; every other
-- one without a failure.
abbrev pub IsEnded : Action → Result (Unit {0}) → Page → Type 0
IsEnded logs_out r s = s.session.user ≡ none
IsEnded a r s = r ≡ ok tt

module _ (srv : Server Call Reply) (s : Page) (w : srv.World) (idle : IsIdle s) where
  deletes_user-ok : (c : Bool) (u : User) → (run srv (delete_user c u) s w).0 ≡ ok tt
  unfolding run delete_user
  deletes_user-ok true u = ground arith
  deletes_user-ok false u = ground arith

  deletes_user-IsIdle : (c : Bool) (u : User) → IsIdle (run srv (delete_user c u) s w).1
  unfolding run delete_user
  deletes_user-IsIdle true u = ground arith
  deletes_user-IsIdle false u = ground arith

  deletes_group-ok : (c : Bool) (g : GroupWithMembers) → (run srv (delete_group c g) s w).0 ≡ ok tt
  unfolding run delete_group
  deletes_group-ok true g = ground arith
  deletes_group-ok false g = ground arith

  deletes_group-IsIdle :
      (c : Bool) (g : GroupWithMembers) → IsIdle (run srv (delete_group c g) s w).1
  unfolding run delete_group
  deletes_group-IsIdle true g = ground arith
  deletes_group-IsIdle false g = ground arith

  adds_members-ok : (run srv add_selected_users_to_group s w).0 ≡ ok tt
  unfolding run add_selected_users_to_group
  adds_members-ok = ground arith

  adds_members-IsIdle : IsIdle (run srv add_selected_users_to_group s w).1
  unfolding run add_selected_users_to_group
  adds_members-IsIdle = ground arith

  removes_member-ok : (u : User) → (run srv (remove_group_member u) s w).0 ≡ ok tt
  unfolding run remove_group_member
  removes_member-ok u = ground arith

  removes_member-IsIdle : (u : User) → IsIdle (run srv (remove_group_member u) s w).1
  unfolding run remove_group_member
  removes_member-IsIdle u = ground arith

  logs_out-user : (run srv on_logout s w).1.session.user ≡ none
  unfolding run on_logout
  logs_out-user = ground arith

  logs_out-IsIdle : IsIdle (run srv on_logout s w).1
  unfolding run on_logout
  logs_out-IsIdle = ground arith

  -- Whatever happens on an idle page and whatever the server answers, in whichever order, the
  -- handler leaves every spinner off. A sign-out leaves no user in the session, even where it fails;
  -- every other handler lets no failure escape.
  pub users_action-IsIdle :
      (a : Action)
      → IsEnded a (run srv (users_action a) s w).0 (run srv (users_action a) s w).1
        × IsIdle (run srv (users_action a) s w).1
  unfolding run users_action submit_group start_create_group close_group_form start_edit_group
      start_editing_group cancel_editing_group start_create_user cancel_create_user create_user
      toggle_active start_edit cancel_edit on_submit load_users load_groups
  users_action-IsIdle (submits_group valid) = ground arith
  users_action-IsIdle opens_group_form = ground arith
  users_action-IsIdle closes_group_form = ground arith
  users_action-IsIdle (edits_group g) = ground arith
  users_action-IsIdle (opens_members id) = ground arith
  users_action-IsIdle closes_members = ground arith
  users_action-IsIdle adds_members = (adds_members-ok, adds_members-IsIdle)
  users_action-IsIdle (removes_member u) = (removes_member-ok u, removes_member-IsIdle u)
  users_action-IsIdle (deletes_group c g) = (deletes_group-ok c g, deletes_group-IsIdle c g)
  users_action-IsIdle opens_user_form = ground arith
  users_action-IsIdle closes_user_form = ground arith
  users_action-IsIdle (creates_user valid) = ground arith
  users_action-IsIdle (deletes_user c u) = (deletes_user-ok c u, deletes_user-IsIdle c u)
  users_action-IsIdle (toggles_active c u) = ground arith
  users_action-IsIdle (opens_password_form u) = ground arith
  users_action-IsIdle closes_password_form = ground arith
  users_action-IsIdle (submits_password valid) = ground arith
  users_action-IsIdle opens_users = ground arith
  users_action-IsIdle opens_groups = ground arith
  users_action-IsIdle logs_out = (logs_out-user, logs_out-IsIdle)
