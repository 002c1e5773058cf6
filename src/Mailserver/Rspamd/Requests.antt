-- ===== src/Mailserver/Rspamd/Requests.antt =====
-- The requests that the section on Rspamd sends.
use mailserver_ui.Common.{
  String, Option, none, some, List, Ordering, ◌≡◌, refl, arith, All, map, find, str_eq,
}
use mailserver_ui.Async.{Server}
use mailserver_ui.Async.Sent.{sent, Asks, sent-Asks}
use mailserver_ui.Models.{RspamdCommand, RspamdOverrideFile}
use mailserver_ui.Api.{Call, Reply}
use mailserver_ui.Api.Sound.{IsSound}
use mailserver_ui.Mailserver.Rspamd.{Page, clean, first_reason}
use mailserver_ui.Mailserver.Rspamd.Rules.{IsCommand, first_reason-none}
use mailserver_ui.Mailserver.Rspamd.Handlers.{
  load, add_command, remove_command, on_kind, on_field, save_commands, on_save, on_file_content,
  save_found, save_file, delete_file, on_new_file_name, on_new_file_content, save_new_file,
  create_file,
}
use mailserver_ui.Mailserver.Rspamd.Flags.{Action, saves, saves_file, rspamd_action}

save_commands-Asks :
    (reason : Option String) (cleaned : List RspamdCommand)
    → (reason ≡ none → All IsCommand cleaned)
    → Asks IsSound (save_commands reason cleaned)
unfolding save_commands
save_commands-Asks (some reason) cleaned h = ground arith
save_commands-Asks none cleaned h = ground (arith, h refl)

save_found-Asks :
    (name : String) (found : Option RspamdOverrideFile) → Asks IsSound (save_found name found)
unfolding save_found
save_found-Asks name none = ground arith
save_found-Asks name (some file) = ground arith

module _ (lower : String → String) (locale : String → String → Ordering) where
  on_save-Asks : Asks IsSound (on_save lower)
  unfolding on_save
  on_save-Asks = λ _ s.
      save_commands-Asks (first_reason lower (map clean s.commands)) (map clean s.commands)
        (first_reason-none lower (map clean s.commands))

  save_file-Asks : (name : String) → Asks IsSound (save_file name)
  unfolding save_file
  save_file-Asks name = λ s. save_found-Asks name (find (λ f. str_eq f.name name) s.override_files)

  rspamd_action-Asks : (a : Action) → Asks IsSound (rspamd_action lower locale a)
  unfolding rspamd_action load add_command remove_command on_kind on_field on_file_content
      delete_file on_new_file_name on_new_file_content save_new_file create_file
  rspamd_action-Asks saves = on_save-Asks
  rspamd_action-Asks (saves_file name) = save_file-Asks name
  rspamd_action-Asks a = ground arith

  -- Whatever the user does in the section and whatever the server answers, each command of a list
  -- that is sent has the arguments its directive takes, each well formed.
  pub rspamd_action-sent :
      (srv : Server Call Reply) (s : Page) (w : srv.World) (a : Action)
      → All IsSound (sent srv (rspamd_action lower locale a) s w)
  rspamd_action-sent srv s w a =
      sent-Asks IsSound srv (rspamd_action lower locale a) (rspamd_action-Asks a) s w
