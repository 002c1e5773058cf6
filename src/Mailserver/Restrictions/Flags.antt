-- ===== src/Mailserver/Restrictions/Flags.antt =====
-- Every handler of the section on restrictions ends with its spinner off and traps its failures.
use mailserver_ui.Common.{String, Bool, true, false, Option, none, ◌≡◌, arith}
use mailserver_ui.Async.{ok, Server, run}
use mailserver_ui.Api.{Call, Reply}
use mailserver_ui.Models.{Restriction, RestrictionKind}
use mailserver_ui.Mailserver.Restrictions.{
  Page, PageTask, load, set_kind, save_restriction, on_add, on_delete,
}

-- What happens in the section: its start, and what the user does.
pub data Action : Type 0 where
  opens : Action
  chooses : RestrictionKind → Action
  adds : Bool → Action
  deletes : Bool → Restriction → Action

pub record Spinners : Type 0 where
  pub loading : Bool
  pub adding : Bool
  pub deleting : Option String

-- No operation is in progress.
abbrev pub IsIdle : Page → Type 0
IsIdle s =
    ◌≡◌ {A = Spinners} (record { loading = s.loading; adding = s.adding; deleting = s.deleting })
      (record { loading = false; adding = false; deleting = none })

unfoldable pub restrictions_action : (String → String) → Action → PageTask
restrictions_action lower opens = load
restrictions_action lower (chooses kind) = set_kind kind
restrictions_action lower (adds valid) = on_add lower valid
restrictions_action lower (deletes confirmed restriction) = on_delete confirmed restriction

-- Whatever happens in the idle section and whatever the server answers, the handler runs to its end,
-- lets no failure escape, and leaves every spinner off.
pub restrictions_action-IsIdle :
    (lower : String → String) (srv : Server Call Reply) (s : Page) (w : srv.World)
    → IsIdle s
    → (a : Action)
    → ((run srv (restrictions_action lower a) s w).0 ≡ ok tt)
      × IsIdle (run srv (restrictions_action lower a) s w).1
unfolding run restrictions_action load set_kind save_restriction on_add on_delete
restrictions_action-IsIdle lower srv s w idle opens = ground arith
restrictions_action-IsIdle lower srv s w idle (chooses kind) = ground arith
restrictions_action-IsIdle lower srv s w idle (adds true) = ground arith
restrictions_action-IsIdle lower srv s w idle (adds false) = ground arith
restrictions_action-IsIdle lower srv s w idle (deletes true restriction) = ground arith
restrictions_action-IsIdle lower srv s w idle (deletes false restriction) = ground arith
