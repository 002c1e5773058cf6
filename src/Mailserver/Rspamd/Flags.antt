-- ===== src/Mailserver/Rspamd/Flags.antt =====
-- Every handler of the section on Rspamd ends with its spinner off and traps its failures.
use mailserver_ui.Common.{
  ℕ, String, Bool, true, false, Option, none, some, List, Ordering, ◌≡◌, arith, find, str_eq, map,
}
use mailserver_ui.Async.{ok, Server, run}
use mailserver_ui.Models.{RspamdCommand, RspamdCommandKind, RspamdOverrideFile}
use mailserver_ui.Api.{Call, Reply}
use mailserver_ui.Mailserver.Rspamd.{Page, PageTask, clean, first_reason}
use mailserver_ui.Mailserver.Rspamd.Handlers.{
  load, add_command, remove_command, on_kind, Field, on_field, save_commands, on_save,
  on_file_content, save_found, save_file, delete_file, on_new_file_name, on_new_file_content,
  save_new_file, create_file,
}

-- What happens in the section: its start, and what the user does.
pub data Action : Type 0 where
  opens : Action
  adds_command : Action
  removes_command : ℕ → Action
  changes_kind : ℕ → RspamdCommandKind → Action
  edits_field : ℕ → Field → String → Action
  saves : Action
  edits_file : String → String → Action
  saves_file : String → Action
  deletes_file : Bool → String → Action
  names_file : String → Action
  writes_file : String → Action
  creates_file : Action

pub record Spinners : Type 0 where
  pub loading : Bool
  pub saving : Bool
  pub saving_file : Option String
  pub deleting_file : Option String
  pub creating_file : Bool

-- No operation is in progress.
abbrev pub IsIdle : Page → Type 0
IsIdle s =
    ◌≡◌ {A = Spinners}
      (record {
        loading = s.loading;
        saving = s.saving;
        saving_file = s.saving_file;
        deleting_file = s.deleting_file;
        creating_file = s.creating_file;
      })
      (record {
        loading = false;
        saving = false;
        saving_file = none;
        deleting_file = none;
        creating_file = false;
      })

module _ (lower : String → String) (locale : String → String → Ordering) where
  unfoldable pub rspamd_action : Action → PageTask
  rspamd_action opens = load
  rspamd_action adds_command = add_command
  rspamd_action (removes_command index) = remove_command index
  rspamd_action (changes_kind index kind) = on_kind index kind
  rspamd_action (edits_field index field value) = on_field index field value
  rspamd_action saves = on_save lower
  rspamd_action (edits_file name content) = on_file_content name content
  rspamd_action (saves_file name) = save_file name
  rspamd_action (deletes_file confirmed name) = delete_file confirmed name
  rspamd_action (names_file value) = on_new_file_name value
  rspamd_action (writes_file value) = on_new_file_content value
  rspamd_action creates_file = create_file locale

module _ (srv : Server Call Reply) where
  save_commands-IsIdle :
      (s : Page) (w : srv.World)
      → IsIdle s
      → (reason : Option String) (cleaned : List RspamdCommand)
      → ((run srv (save_commands reason cleaned) s w).0 ≡ ok tt)
        × IsIdle (run srv (save_commands reason cleaned) s w).1
  unfolding run save_commands
  save_commands-IsIdle s w idle (some reason) cleaned = ground arith
  save_commands-IsIdle s w idle none cleaned = ground arith

  save_found-IsIdle :
      (s : Page) (w : srv.World)
      → IsIdle s
      → (name : String) (found : Option RspamdOverrideFile)
      → ((run srv (save_found name found) s w).0 ≡ ok tt)
        × IsIdle (run srv (save_found name found) s w).1
  unfolding run save_found
  save_found-IsIdle s w idle name none = ground arith
  save_found-IsIdle s w idle name (some file) = ground arith

  -- Whatever happens in the idle section and whatever the server answers, the handler runs to its
  -- end, lets no failure escape, and leaves every spinner off.
  pub rspamd_action-IsIdle :
      (lower : String → String) (locale : String → String → Ordering) (s : Page) (w : srv.World)
      → IsIdle s
      → (a : Action)
      → ((run srv (rspamd_action lower locale a) s w).0 ≡ ok tt)
        × IsIdle (run srv (rspamd_action lower locale a) s w).1
  unfolding run rspamd_action load add_command remove_command on_kind on_field on_save
      on_file_content save_file delete_file on_new_file_name on_new_file_content save_new_file
      create_file
  rspamd_action-IsIdle lower locale s w idle saves =
      save_commands-IsIdle (record s { error = none; success = none }) w idle
        (first_reason lower (map clean s.commands)) (map clean s.commands)
  rspamd_action-IsIdle lower locale s w idle (saves_file name) =
      save_found-IsIdle s w idle name (find (λ f. str_eq f.name name) s.override_files)
  rspamd_action-IsIdle lower locale s w idle (deletes_file true name) = ground arith
  rspamd_action-IsIdle lower locale s w idle (deletes_file false name) = ground arith
  rspamd_action-IsIdle lower locale s w idle a = ground arith
