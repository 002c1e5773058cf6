-- ===== src/Mailserver/Aliases.antt =====
-- The section on local and PCRE aliases: aliases/aliases.ts.
use mailserver_ui.Common.{
  String, Bool, true, false, Option, none, some, List, [], ◌∷◌, if◌then◌else◌, ◌+++◌, trim,
  includes,
}
use mailserver_ui.Async.{
  Task, ◌>>=◌, ◌>>◌, try_catch, try_finally, await, await_both, modify, read, skip,
}
use mailserver_ui.Models.{SystemAlias, RegexAlias}
use mailserver_ui.Api.{
  Call, Reply, routing, list_system_aliases, list_regex_aliases, create_system_alias,
  delete_system_alias, create_regex_alias, delete_regex_alias,
}
use mailserver_ui.Mailserver.Texts.{
  mailserver_error_message, parse_targets, no_targets, is_regex_alias,
}
pub mod Flags
pub mod Requests

pub record SystemAliasModel : Type 0 where
  pub name : String
  pub targets : String

pub record RegexAliasModel : Type 0 where
  pub pattern : String
  pub targets : String

pub record Page : Type 0 where
  pub system_aliases : List SystemAlias
  pub regex_aliases : List RegexAlias
  pub loading : Bool
  pub error : Option String
  pub success : Option String
  pub adding_system_alias : Bool
  pub adding_regex_alias : Bool
  pub deleting_alias : Option String
  pub system_alias_model : SystemAliasModel
  pub regex_alias_model : RegexAliasModel

abbrev pub PageTask : Type 0
PageTask = Task Page Call Reply (Unit {0})

unfoldable pub load : PageTask
load = do
  modify (λ s. record s { loading = true; error = none })
  try_finally
      (try_catch
        (do
          (system, regex) ← await_both (routing list_system_aliases) (routing list_regex_aliases)
          modify (λ s. record s { system_aliases = system; regex_aliases = regex }))
        (λ err. modify (λ s. record s { error = some "Unable to load the aliases." })))
      (modify (λ s. record s { loading = false }))

unfoldable pub save_system_alias : String → List String → PageTask
unfolding load
save_system_alias name targets = do
  modify (λ s. record s { adding_system_alias = true })
  try_finally
      (try_catch
        (do
          _ ← await (routing (create_system_alias name targets))
          modify (λ s. record s {
            success = some ("System alias " +++ name +++ " created.");
            system_alias_model = record { name = ""; targets = "" };
          })
          load)
        (λ err. modify (λ s. record s { error = some (mailserver_error_message err) })))
      (modify (λ s. record s { adding_system_alias = false }))

unfoldable pub on_add_system_alias : (String → String) → Bool → PageTask
on_add_system_alias lower valid = do
  modify (λ s. record s { error = none; success = none })
  if valid
      then (do
        s ← read
        let name = lower (trim s.system_alias_model.name)
        let targets = parse_targets s.system_alias_model.targets
        if includes name "@"
            then modify
                (λ s. record s { error = some "A system alias is a local name, without a domain." })
            else (if no_targets targets
                then modify (λ s. record s { error = some "At least one destination is required." })
                else save_system_alias name targets))
      else skip

unfoldable pub on_delete_system_alias : Bool → SystemAlias → PageTask
unfolding load
on_delete_system_alias confirmed alias =
    if confirmed
    then (do
      modify (λ s. record s { error = none; success = none; deleting_alias = some alias.name })
      try_finally
          (try_catch
            (do
              _ ← await (routing (delete_system_alias alias.name))
              modify (λ s. record s {
                success = some ("System alias " +++ alias.name +++ " deleted.");
              })
              load)
            (λ err. modify (λ s. record s { error = some (mailserver_error_message err) })))
          (modify (λ s. record s { deleting_alias = none })))
    else skip

unfoldable pub save_regex_alias : String → List String → PageTask
unfolding load
save_regex_alias pattern targets = do
  modify (λ s. record s { adding_regex_alias = true })
  try_finally
      (try_catch
        (do
          _ ← await (routing (create_regex_alias pattern targets))
          modify (λ s. record s {
            success = some "Regex alias created.";
            regex_alias_model = record { pattern = ""; targets = "" };
          })
          load)
        (λ err. modify (λ s. record s { error = some (mailserver_error_message err) })))
      (modify (λ s. record s { adding_regex_alias = false }))

unfoldable pub on_add_regex_alias : Bool → PageTask
on_add_regex_alias valid = do
  modify (λ s. record s { error = none; success = none })
  if valid
      then (do
        s ← read
        let pattern = trim s.regex_alias_model.pattern
        let targets = parse_targets s.regex_alias_model.targets
        if is_regex_alias pattern
            then (if no_targets targets
                then modify (λ s. record s { error = some "At least one destination is required." })
                else save_regex_alias pattern targets)
            else modify (λ s. record s {
              error = some "A regex alias must be delimited by slashes, e.g. /^info@.+$/.";
            }))
      else skip

unfoldable pub on_delete_regex_alias : Bool → RegexAlias → PageTask
unfolding load
on_delete_regex_alias confirmed alias =
    if confirmed
    then (do
      modify (λ s. record s { error = none; success = none; deleting_alias = some alias.pattern })
      try_finally
          (try_catch
            (do
              _ ← await (routing (delete_regex_alias alias.pattern))
              modify (λ s. record s { success = some "Regex alias deleted." })
              load)
            (λ err. modify (λ s. record s { error = some (mailserver_error_message err) })))
          (modify (λ s. record s { deleting_alias = none })))
    else skip
