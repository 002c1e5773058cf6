-- ===== src/Users/Reloads.antt =====
-- What the page shows after an operation, from the answers of the server.
use mailserver_ui.Common.{
  ap, not, Option, ◌+++◌, String, is_empty, ◌↔◌, ◌≢◌, ◌⊎◌, true, false, none, some, List, ◌≡◌,
  arith, is_num, if◌then◌else◌,
}
use mailserver_ui.Async.{Failure, http, other, ok, err, Server, run}
use mailserver_ui.Models.{User, GroupWithMembers}
use mailserver_ui.Api.{Call, Reply, users, groups, UsersCall, set_active, GroupsCall}
use mailserver_ui.Users.State.{Page, PageTask, empty_user_model, api_error_for}
use mailserver_ui.Users.Groups.{delete_group}
use mailserver_ui.Users.Accounts.{password_problem, create_user, delete_user, toggle_active}

-- What the page shows of a failure: the server's detail, or a general text where there is none.
abbrev pub Explains : Failure → String → String → Type 0
Explains other general text = text ≡ general
Explains (http status none) general text = text ≡ general
Explains (http status (some detail)) general text =
    ((detail ≡ "") × (text ≡ general)) ⊎ ((detail ≢ "") × (text ≡ detail))

is_empty_iff : (t : String) → (is_empty t ≡ true) ↔ (t ≡ "")
is_empty_iff String.[] = ground arith
is_empty_iff (String.◌∷◌ c t) = (λ h. absurd (ground arith), λ e. ap is_empty e)

api_error_for-Explains :
    (e : Failure) (general : String) → Explains e general (api_error_for e general)
unfolding api_error_for
api_error_for-Explains other general = ground arith
api_error_for-Explains (http status none) general = ground arith
api_error_for-Explains (http status (some detail)) general = ground (arith, is_empty_iff detail)

module _ (srv : Server Call Reply) (s : Page) (w : srv.World) where
  open srv use {World, reply, after}

  -- The call that creates the account in the form.
  abbrev pub creation : Call
  creation =
      users (UsersCall.create s.user_model.username s.user_model.display_name s.user_model.password)

  module _ (fine : password_problem s.user_model.password s.user_model.confirm ≡ none) where
    -- Once the server has created an account, the form is closed and emptied, and the list is the
    -- server's answer to the reload that follows.
    pub create_user_created :
        (u : User) (us : List User)
        → reply w creation ≡ ok u
        → reply (after w creation) (users UsersCall.list) ≡ ok us
        → let s' = (run srv (create_user true) s w).1 in
          (s'.users ≡ us)
          × (s'.show_user_form ≡ false)
          × (s'.user_model ≡ empty_user_model)
          × (s'.user_creation_error ≡ none)
    unfolding run create_user
    create_user_created u us p q = ground arith

  -- Deleting an account reloads both lists, and in whichever order the two answers arrive the page
  -- shows them; a password form open on that account is closed, and one open on another stays.
  pub delete_user_reloads :
      (u : User) (us : List User) (gs : List GroupWithMembers)
      → reply w (users (UsersCall.delete u.id)) ≡ ok tt
      → ((v : World) → reply v (users UsersCall.list) ≡ ok us)
      → ((v : World) → reply v (groups GroupsCall.list) ≡ ok gs)
      → let s' = (run srv (delete_user true u) s w).1 in
        (s'.users ≡ us)
        × (s'.groups ≡ gs)
        × (s'.load_error ≡ none)
        × (s'.editing_id ≡ (if is_num s.editing_id u.id then none else s.editing_id))
  unfolding run delete_user
  delete_user_reloads u us gs p q r = ground (arith, q v₁, r v₁, q v₂, r v₂, q v₃, r v₃)
    where
      v₀ : World
      v₀ = after w (users (UsersCall.delete u.id))

      v₁ : World
      v₁ = srv.tick v₀

      v₂ : World
      v₂ = after v₁ (users UsersCall.list)

      v₃ : World
      v₃ = after v₁ (groups GroupsCall.list)

  -- Deleting a group closes its member panel and its form, and leaves those of other groups open.
  pub delete_group_closes :
      (g : GroupWithMembers)
      → reply w (groups (GroupsCall.delete g.id)) ≡ ok tt
      → let s' = (run srv (delete_group true g) s w).1 in
        (s'.editing_group_id
          ≡ (if is_num s.editing_group_id g.id then none else s.editing_group_id))
        × (s'.edited_group_id ≡ (if is_num s.edited_group_id g.id then none else s.edited_group_id))
  unfolding run delete_group
  delete_group_closes g p = ground arith

-- The changes of an account.
pub data Change : Type 0 where
  creates : Change
  deletes toggles : User → Change

abbrev pub change : Change → PageTask
change creates = create_user true
change (deletes u) = delete_user true u
change (toggles u) = toggle_active true u

abbrev pub call_of : Page → Change → Call
call_of s creates =
    users (UsersCall.create s.user_model.username s.user_model.display_name s.user_model.password)
call_of s (deletes u) = users (UsersCall.delete u.id)
call_of s (toggles u) = users (set_active u.id (not u.is_active))

abbrev pub IsReady : Page → Change → Type 0
IsReady s creates = password_problem s.user_model.password s.user_model.confirm ≡ none
IsReady s (deletes u) = Unit
IsReady s (toggles u) = Unit

-- What the page says where the server gives no detail.
abbrev pub general_text : Change → String
general_text creates = "Unable to create the user."
general_text (deletes u) = "Unable to delete \"" +++ u.username +++ "\"."
general_text (toggles u) =
    "Unable to "
    +++ (if u.is_active then "deactivate" else "activate")
    +++ " \""
    +++ u.username
    +++ "\"."

-- The page with a message, where the message of the change is shown.
abbrev pub with_message : Page → Change → Option String → Page
with_message s creates text = record s { success_message = none; user_creation_error = text }
with_message s (deletes u) text = record s { success_message = none; load_error = text }
with_message s (toggles u) text = record s { success_message = none; load_error = text }

-- The page with the spinner of the change off.
abbrev pub without_spinner : Page → Change → Page
without_spinner s creates = record s { creating_user = false }
without_spinner s (deletes u) = record s { deleting_user_id = none }
without_spinner s (toggles u) = record s { toggling_user_id = none }

module _ (srv : Server Call Reply) (s : Page) (w : srv.World) where
  change-refused :
      (c : Change) (e : Failure)
      → IsReady s c
      → srv.reply w (call_of s c) ≡ err e
      → run srv (change c) s w ≡ (
        ok tt,
        without_spinner (with_message s c (some (api_error_for e (general_text c)))) c,
        srv.after w (call_of s c),
      )
  unfolding run create_user delete_user toggle_active
  change-refused creates e ready p = ground arith
  change-refused (deletes u) e ready p = ground arith
  change-refused (toggles u) e ready p = ground arith

  -- Where the server refuses to create an account, to delete one or to switch one on or off, that
  -- call is the only one and no failure escapes. The lists and the forms stay as they were, with what
  -- was typed; the spinner of the change is off; and the page shows the server's detail, or the
  -- general text of the change where the failure has none.
  pub change_refused :
      (c : Change) (e : Failure)
      → IsReady s c
      → srv.reply w (call_of s c) ≡ err e
      → (text : String) × Explains e (general_text c) text
        × (run srv (change c) s w
            ≡ (ok tt, without_spinner (with_message s c (some text)) c, srv.after w (call_of s c)))
  change_refused c e ready p = (
    api_error_for e (general_text c),
    api_error_for-Explains e (general_text c),
    change-refused c e ready p,
  )
