-- ===== src/Users/Groups.antt =====
-- The handlers of the groups tab.
use mailserver_ui.Common.{
  ℕ, String, Bool, true, false, Option, none, some, List, [], if◌then◌else◌, is_num, is_empty,
  length, trim, ◌+++◌, number_text,
}
use mailserver_ui.Async.{◌>>=◌, ◌>>◌, try_catch, try_finally, await, modify, read, skip, par}
use mailserver_ui.Models.{User, GroupWithMembers}
use mailserver_ui.Api.{groups, GroupsCall, update, get_members, remove_member, add_members}
use mailserver_ui.Users.State.{PageTask, GroupModel, empty_group_model, api_error_for}

unfoldable pub close_group_form : PageTask
close_group_form = modify (λ s. record s {
  show_group_form = false;
  edited_group_id = none;
  group_model = empty_group_model;
  group_form_error = none;
})

unfoldable pub start_create_group : PageTask
start_create_group = modify (λ s. record s {
  edited_group_id = none;
  group_model = empty_group_model;
  group_form_error = none;
  show_group_form = true;
})

unfoldable pub start_edit_group : GroupWithMembers → PageTask
start_edit_group group = modify (λ s. record s {
  edited_group_id = some group.id;
  group_model = record { name = group.name; description = group.description; role = group.role };
  group_form_error = none;
  success_message = none;
  show_group_form = true;
})

unfoldable pub load_groups : PageTask
load_groups =
    try_catch (do gs ← await (groups GroupsCall.list); modify (λ s. record s { groups = gs }))
      (λ _. modify (λ s. record s { load_error = some "Unable to load groups." }))

unfoldable pub load_group_members : ℕ → PageTask
load_group_members id = do
  modify (λ s. record s { loading_members = true })
  try_finally
      (try_catch
        (do
          members ← await (groups (get_members id))
          modify (λ s. record s { group_members = members }))
        (λ _. modify (λ s. record s {
          group_members = [];
          members_error = some "Unable to load the group members.";
        })))
      (modify (λ s. record s { loading_members = false }))

-- The call that `submitGroup` makes, and the message on its success.
unfoldable pub save_group : Option ℕ → GroupModel → PageTask
save_group none m = do
  _ ← await (groups (GroupsCall.create m.name m.description m.role))
  modify (λ s. record s {
    success_message = some ("Group \"" +++ m.name +++ "\" created successfully.");
  })
save_group (some id) m = do
  _ ← await (groups (update id m.name m.description m.role))
  modify (λ s. record s {
    success_message = some ("Group \"" +++ m.name +++ "\" updated successfully.");
  })

abbrev pub save_group_fallback : Option ℕ → String
save_group_fallback none = "Unable to create the group."
save_group_fallback (some id) = "Unable to update the group."

unfoldable pub submit_group_action : PageTask
unfolding save_group close_group_form load_groups
submit_group_action = do
  s ← read
  if is_empty (trim s.group_model.name)
      then modify (λ s. record s { group_form_error = some "Group name is required" })
      else (do
        modify (λ s. record s { saving_group = true })
        try_finally
            (try_catch
              (do save_group s.edited_group_id s.group_model; close_group_form; load_groups)
              (λ err. modify (λ t. record t {
                group_form_error = some (api_error_for err (save_group_fallback s.edited_group_id));
              })))
            (modify (λ s. record s { saving_group = false })))

unfoldable pub submit_group : Bool → PageTask
unfolding submit_group_action
submit_group valid = do
  modify (λ s. record s { group_form_error = none })
  if valid then submit_group_action else skip

unfoldable pub cancel_editing_group : PageTask
cancel_editing_group = modify (λ s. record s {
  editing_group_id = none;
  selected_user_ids = [];
  group_members = [];
  members_error = none;
})

unfoldable pub start_editing_group : ℕ → PageTask
unfolding cancel_editing_group load_group_members
start_editing_group id = do
  s ← read
  if is_num s.editing_group_id id then cancel_editing_group else (do
    modify (λ s. record s {
      editing_group_id = some id;
      selected_user_ids = [];
      members_error = none;
      success_message = none;
    })
    load_group_members id)

unfoldable pub add_members_action : ℕ → List ℕ → PageTask
unfolding load_group_members load_groups
add_members_action id chosen = do
  modify (λ s. record s { members_error = none; adding_members = true })
  try_finally
      (try_catch
        (do
          await (groups (add_members id chosen))
          modify (λ s. record s {
            success_message =
                some ("Added " +++ number_text (length chosen) +++ " user(s) to the group.");
            selected_user_ids = [];
          })
          par (load_group_members id) load_groups)
        (λ err. modify (λ s. record s {
          members_error = some (api_error_for err "Unable to add the selected users.");
        })))
      (modify (λ s. record s { adding_members = false }))

unfoldable pub add_selected_users_to_group : PageTask
unfolding add_members_action
add_selected_users_to_group = do
  s ← read
  elim s.editing_group_id [
    | none ↦ skip
    | some id ↦ elim s.selected_user_ids [
      | [] ↦ skip
      | _ ↦ add_members_action id s.selected_user_ids
    ]
  ]

unfoldable pub remove_member_action : ℕ → User → PageTask
unfolding load_group_members load_groups
remove_member_action id member = do
  modify (λ s. record s { members_error = none; removing_member_id = some member.id })
  try_finally
      (try_catch
        (do
          await (groups (remove_member id member.id))
          modify (λ s. record s {
            success_message = some ("Removed " +++ member.username +++ " from the group.");
          })
          par (load_group_members id) load_groups)
        (λ err. modify (λ s. record s {
          members_error =
              some (api_error_for err ("Unable to remove " +++ member.username +++ "."));
        })))
      (modify (λ s. record s { removing_member_id = none }))

unfoldable pub remove_group_member : User → PageTask
unfolding remove_member_action
remove_group_member member = do
  s ← read
  elim s.editing_group_id [ none ↦ skip | some id ↦ remove_member_action id member ]

unfoldable pub delete_group : Bool → GroupWithMembers → PageTask
unfolding cancel_editing_group close_group_form load_groups
delete_group confirmed group =
    if confirmed
    then (do
      modify (λ s. record s { saving = true })
      try_finally
          (try_catch
            (do
              await (groups (GroupsCall.delete group.id))
              modify (λ s. record s {
                success_message = some ("Group \"" +++ group.name +++ "\" deleted.");
              })
              s ← read
              if is_num s.editing_group_id group.id then cancel_editing_group else skip
              t ← read
              if is_num t.edited_group_id group.id then close_group_form else skip
              load_groups)
            (λ err. modify (λ s. record s {
              load_error =
                  some (api_error_for err ("Unable to delete \"" +++ group.name +++ "\"."));
            })))
          (modify (λ s. record s { saving = false })))
    else skip
