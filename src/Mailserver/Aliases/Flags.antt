-- ===== src/Mailserver/Aliases/Flags.antt =====
-- Every handler of the section on the aliases ends with its spinner off and traps its failures.
use mailserver_ui.Common.{String, Bool, true, false, Option, none, ◌≡◌, arith}
use mailserver_ui.Async.{ok, Server, run}
use mailserver_ui.Api.{Call, Reply}
use mailserver_ui.Models.{SystemAlias, RegexAlias}
use mailserver_ui.Mailserver.Aliases.{
  Page, PageTask, load, save_system_alias, on_add_system_alias, on_delete_system_alias,
  save_regex_alias, on_add_regex_alias, on_delete_regex_alias,
}

-- What happens in the section: its start, and what the user does.
pub data Action : Type 0 where
  opens : Action
  adds_system : Bool → Action
  deletes_system : Bool → SystemAlias → Action
  adds_regex : Bool → Action
  deletes_regex : Bool → RegexAlias → Action

pub record Spinners : Type 0 where
  pub loading : Bool
  pub adding_system_alias : Bool
  pub adding_regex_alias : Bool
  pub deleting_alias : Option String

-- No operation is in progress.
abbrev pub IsIdle : Page → Type 0
IsIdle s =
    ◌≡◌ {A = Spinners}
      (record {
        loading = s.loading;
        adding_system_alias = s.adding_system_alias;
        adding_regex_alias = s.adding_regex_alias;
        deleting_alias = s.deleting_alias;
      })
      (record {
        loading = false;
        adding_system_alias = false;
        adding_regex_alias = false;
        deleting_alias = none;
      })

unfoldable pub aliases_action : (String → String) → Action → PageTask
aliases_action lower opens = load
aliases_action lower (adds_system valid) = on_add_system_alias lower valid
aliases_action lower (deletes_system confirmed alias) = on_delete_system_alias confirmed alias
aliases_action lower (adds_regex valid) = on_add_regex_alias valid
aliases_action lower (deletes_regex confirmed alias) = on_delete_regex_alias confirmed alias

-- Whatever happens in the idle section and whatever the server answers, the handler runs to its end,
-- lets no failure escape, and leaves every spinner off.
pub aliases_action-IsIdle :
    (lower : String → String) (srv : Server Call Reply) (s : Page) (w : srv.World)
    → IsIdle s
    → (a : Action)
    → ((run srv (aliases_action lower a) s w).0 ≡ ok tt)
      × IsIdle (run srv (aliases_action lower a) s w).1
unfolding run aliases_action load save_system_alias on_add_system_alias on_delete_system_alias
    save_regex_alias on_add_regex_alias on_delete_regex_alias
aliases_action-IsIdle lower srv s w idle opens = ground arith
aliases_action-IsIdle lower srv s w idle (adds_system true) = ground arith
aliases_action-IsIdle lower srv s w idle (adds_system false) = ground arith
aliases_action-IsIdle lower srv s w idle (deletes_system true alias) = ground arith
aliases_action-IsIdle lower srv s w idle (deletes_system false alias) = ground arith
aliases_action-IsIdle lower srv s w idle (adds_regex true) = ground arith
aliases_action-IsIdle lower srv s w idle (adds_regex false) = ground arith
aliases_action-IsIdle lower srv s w idle (deletes_regex true alias) = ground arith
aliases_action-IsIdle lower srv s w idle (deletes_regex false alias) = ground arith
