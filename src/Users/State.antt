-- ===== src/Users/State.antt =====
-- The signals of the page, and its error messages.
use mailserver_ui.Common.{
  ℕ, String, Bool, true, false, Option, none, some, List, if◌then◌else◌, ◌==◌, filter, find, any,
  not, is_num, is_empty,
}
use mailserver_ui.Async.{
  Failure, http, other, Task, ◌>>=◌, ◌>>◌, try_finally, await, modify, skip, zoom,
}
use mailserver_ui.Models.{Role, guest, User, GroupWithMembers}
use mailserver_ui.Api.{Call, Reply, navigate}
use mailserver_ui.Auth.{AuthState, logout}

pub data Tab : Type 0 where
  users_tab groups_tab : Tab

pub record UserModel : Type 0 where
  pub username : String
  pub display_name : String
  pub password : String
  pub confirm : String

abbrev pub empty_user_model : UserModel
empty_user_model = record { username = ""; display_name = ""; password = ""; confirm = "" }

pub record GroupModel : Type 0 where
  pub name : String
  pub description : String
  pub role : Role

abbrev pub empty_group_model : GroupModel
empty_group_model = record { name = ""; description = ""; role = guest }

pub record PasswordModel : Type 0 where
  pub password : String
  pub confirm : String

abbrev pub empty_password_model : PasswordModel
empty_password_model = record { password = ""; confirm = "" }

pub record Page : Type 0 where
  pub session : AuthState
  pub users : List User
  pub groups : List GroupWithMembers
  pub loading : Bool
  pub load_error : Option String
  pub logging_out : Bool
  pub show_user_form : Bool
  pub creating_user : Bool
  pub user_creation_error : Option String
  pub deleting_user_id : Option ℕ
  pub toggling_user_id : Option ℕ
  pub user_model : UserModel
  pub active_tab : Tab
  pub saving_group : Bool
  pub group_form_error : Option String
  pub group_model : GroupModel
  pub show_group_form : Bool
  pub edited_group_id : Option ℕ
  pub editing_group_id : Option ℕ
  pub selected_user_ids : List ℕ
  pub adding_members : Bool
  pub group_members : List User
  pub loading_members : Bool
  pub members_error : Option String
  pub removing_member_id : Option ℕ
  pub editing_id : Option ℕ
  pub saving : Bool
  pub form_error : Option String
  pub success_message : Option String
  pub model : PasswordModel

abbrev pub PageTask : Type 0
PageTask = Task Page Call Reply (Unit {0})

-- Users that are not members of the group being edited yet.
unfoldable pub assignable_users : Page → List User
assignable_users s = filter (λ u. not (any (λ m. m.id == u.id) s.group_members)) s.users

unfoldable pub editing_user : Page → Option User
editing_user s = find (λ u. is_num s.editing_id u.id) s.users

-- Surfaces the API `detail` when there is one, otherwise a caller-supplied fallback.
unfoldable pub api_error_for : Failure → String → String
api_error_for other fallback = fallback
api_error_for (http status none) fallback = fallback
api_error_for (http status (some detail)) fallback = if is_empty detail then fallback else detail

unfoldable pub message_for : Failure → String
message_for other = "Unable to update the password. Please try again."
message_for (http status detail) =
    if status == 409
    then "This account is managed by the identity provider."
    else if status == 422
    then "Password must be at least 8 characters."
    else "Unable to update the password. Please try again."

unfoldable pub on_logout : PageTask
unfolding logout
on_logout = do
  modify (λ s. record s { logging_out = true })
  try_finally
      (do
        zoom (λ s. s.session) (λ a s. record s { session = a }) logout
        _ ← await (navigate "/login")
        skip)
      (modify (λ s. record s { logging_out = false }))
