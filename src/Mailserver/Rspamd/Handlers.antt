-- ===== src/Mailserver/Rspamd/Handlers.antt =====
-- The handlers of the section on Rspamd.
use mailserver_ui.Common.{
  ℕ, String, Bool, true, false, Option, none, some, List, [], ◌∷◌, ◌++◌, map, filter, find, any,
  not, if◌then◌else◌, ◌+++◌, trim, str_eq, Ordering,
}
use mailserver_ui.Async.{◌>>=◌, ◌>>◌, try_catch, try_finally, await, modify, read, skip}
use mailserver_ui.Models.{
  RspamdCommand, RspamdCommandKind, RspamdOverrideFile, set_option_for_module,
}
use mailserver_ui.Api.{
  filtering, get_rspamd_overrides, set_rspamd_overrides, set_rspamd_override_file,
  delete_rspamd_override_file,
}
use mailserver_ui.TableSort.{sort}
use mailserver_ui.Mailserver.Rows.{remove_at, change_at}
use mailserver_ui.Mailserver.Texts.{mailserver_error_message}
use mailserver_ui.Mailserver.Rspamd.{PageTask, empty_command, is_filename, first_reason, clean}

unfoldable pub load : PageTask
load = do
  modify (λ s. record s { loading = true; error = none })
  try_finally
      (try_catch
        (do
          overrides ← await (filtering get_rspamd_overrides)
          modify (λ s. record s {
            commands = overrides.commands;
            override_files = overrides.override_files;
            rspamd_enabled = overrides.rspamd_enabled;
          }))
        (λ err. modify (λ s. record s { error = some (mailserver_error_message err) })))
      (modify (λ s. record s { loading = false }))

unfoldable pub add_command : PageTask
unfolding empty_command
add_command =
    modify (λ s. record s { commands = s.commands ++ empty_command set_option_for_module ∷ [] })

unfoldable pub remove_command : ℕ → PageTask
remove_command index = modify (λ s. record s { commands = remove_at index s.commands })

unfoldable pub on_kind : ℕ → RspamdCommandKind → PageTask
on_kind index kind =
    modify (λ s. record s { commands = change_at (λ c. empty_command kind) index s.commands })

pub data Field : Type 0 where
  target_field option_field value_field : Field

unfoldable pub set_field : Field → String → RspamdCommand → RspamdCommand
set_field target_field value c = record c { target = value }
set_field option_field value c = record c { option = value }
set_field value_field value c = record c { value = value }

unfoldable pub on_field : ℕ → Field → String → PageTask
on_field index field value =
    modify (λ s. record s { commands = change_at (set_field field value) index s.commands })

-- The rest of `onSave`, after the loop over the commands.
unfoldable pub save_commands : Option String → List RspamdCommand → PageTask
save_commands (some reason) cleaned = modify (λ s. record s { error = some reason })
save_commands none cleaned = do
  modify (λ s. record s { saving = true })
  try_finally
      (try_catch
        (do
          overrides ← await (filtering (set_rspamd_overrides cleaned))
          modify (λ s. record s {
            commands = overrides.commands;
            override_files = overrides.override_files;
            success = some "Rspamd commands saved. Restart the mailserver to apply them.";
          }))
        (λ err. modify (λ s. record s { error = some (mailserver_error_message err) })))
      (modify (λ s. record s { saving = false }))

unfoldable pub on_save : (String → String) → PageTask
on_save lower = do
  modify (λ s. record s { error = none; success = none })
  s ← read
  let cleaned = map clean s.commands
  save_commands (first_reason lower cleaned) cleaned

abbrev is_named : String → RspamdOverrideFile → Bool
is_named name file = str_eq file.name name

unfoldable pub on_file_content : String → String → PageTask
on_file_content name content = modify (λ s. record s {
  override_files =
      map (λ f. if is_named name f then record f { content = content } else f) s.override_files;
})

abbrev pub produced : String → String → String
produced verb name =
    verb +++ " \"" +++ name +++ "\". A restart of the mailserver will overwrite it again unless "
    +++ "custom-commands.conf does not also produce this file."

-- The rest of `saveFile`, after the file is looked up.
unfoldable pub save_found : String → Option RspamdOverrideFile → PageTask
save_found name none = skip
save_found name (some file) = do
  modify (λ s. record s { error = none; success = none; saving_file = some name })
  try_finally
      (try_catch
        (do
          saved ← await (filtering (set_rspamd_override_file name file.content))
          modify (λ s. record s {
            override_files = map (λ f. if is_named name f then saved else f) s.override_files;
            success = some (produced "Saved" name);
          }))
        (λ err. modify (λ s. record s { error = some (mailserver_error_message err) })))
      (modify (λ s. record s { saving_file = none }))

unfoldable pub save_file : String → PageTask
save_file name = do s ← read; save_found name (find (is_named name) s.override_files)

unfoldable pub delete_file : Bool → String → PageTask
delete_file confirmed name =
    if confirmed
    then (do
      modify (λ s. record s { error = none; success = none; deleting_file = some name })
      try_finally
          (try_catch
            (do
              _ ← await (filtering (delete_rspamd_override_file name))
              modify (λ s. record s {
                override_files = filter (λ f. not (is_named name f)) s.override_files;
                success = some ("Deleted \"" +++ name +++ "\".");
              }))
            (λ err. modify (λ s. record s { error = some (mailserver_error_message err) })))
          (modify (λ s. record s { deleting_file = none })))
    else skip

unfoldable pub on_new_file_name : String → PageTask
on_new_file_name value = modify (λ s. record s { new_file_name = value })

unfoldable pub on_new_file_content : String → PageTask
on_new_file_content value = modify (λ s. record s { new_file_content = value })

-- `locale` is `localeCompare`.
module _ (locale : String → String → Ordering) where
  unfoldable pub save_new_file : String → PageTask
  save_new_file name = do
    modify (λ s. record s { creating_file = true })
    try_finally
        (try_catch
          (do
            s ← read
            created ← await (filtering (set_rspamd_override_file name s.new_file_content))
            modify (λ s. record s {
              override_files =
                  sort (λ a b. locale a.name b.name) (s.override_files ++ created ∷ []);
              new_file_name = "";
              new_file_content = "";
              success = some (produced "Created" name);
            }))
          (λ err. modify (λ s. record s { error = some (mailserver_error_message err) })))
        (modify (λ s. record s { creating_file = false }))

  unfoldable pub create_file : PageTask
  create_file = do
    t ← read
    let name = trim t.new_file_name
    modify (λ s. record s { error = none; success = none })
    if is_filename name
        then (do
          s ← read
          if any (is_named name) s.override_files
              then modify (λ s. record s { error = some ("\"" +++ name +++ "\" already exists.") })
              else save_new_file name)
        else modify (λ s. record s {
          error = some ("Invalid Rspamd override file name: \"" +++ name +++ "\".");
        })
