-- ===== src/Mailserver/Relay/Flags.antt =====
-- Every handler of the section on the relays ends with its spinner off and traps its failures.
use mailserver_ui.Common.{String, Bool, true, false, Option, none, ◌≡◌, arith}
use mailserver_ui.Async.{ok, Server, run}
use mailserver_ui.Api.{Call, Reply}
use mailserver_ui.Models.{RelayHost, RelayExclusion}
use mailserver_ui.Mailserver.Relay.{
  Page, PageTask, load, save_relay, on_create_relay, on_delete_relay, save_exclusion,
  on_add_exclusion, on_delete_exclusion,
}

-- What happens in the section: its start, and what the user does.
pub data Action : Type 0 where
  opens : Action
  creates_relay : Bool → Action
  deletes_relay : Bool → RelayHost → Action
  adds_exclusion : Bool → Action
  deletes_exclusion : Bool → RelayExclusion → Action

pub record Spinners : Type 0 where
  pub loading : Bool
  pub creating_relay : Bool
  pub deleting_sender : Option String
  pub adding_exclusion : Bool
  pub deleting_exclusion : Option String

-- No operation is in progress.
abbrev pub IsIdle : Page → Type 0
IsIdle s =
    ◌≡◌ {A = Spinners}
      (record {
        loading = s.loading;
        creating_relay = s.creating_relay;
        deleting_sender = s.deleting_sender;
        adding_exclusion = s.adding_exclusion;
        deleting_exclusion = s.deleting_exclusion;
      })
      (record {
        loading = false;
        creating_relay = false;
        deleting_sender = none;
        adding_exclusion = false;
        deleting_exclusion = none;
      })

unfoldable pub relay_action : (String → String) → Action → PageTask
relay_action lower opens = load
relay_action lower (creates_relay valid) = on_create_relay lower valid
relay_action lower (deletes_relay confirmed relay) = on_delete_relay confirmed relay
relay_action lower (adds_exclusion valid) = on_add_exclusion lower valid
relay_action lower (deletes_exclusion confirmed exclusion) = on_delete_exclusion confirmed exclusion

-- Whatever happens in the idle section and whatever the server answers, the handler runs to its end,
-- lets no failure escape, and leaves every spinner off.
pub relay_action-IsIdle :
    (lower : String → String) (srv : Server Call Reply) (s : Page) (w : srv.World)
    → IsIdle s
    → (a : Action)
    → ((run srv (relay_action lower a) s w).0 ≡ ok tt)
      × IsIdle (run srv (relay_action lower a) s w).1
unfolding run relay_action load save_relay on_create_relay on_delete_relay save_exclusion
    on_add_exclusion on_delete_exclusion
relay_action-IsIdle lower srv s w idle opens = ground arith
relay_action-IsIdle lower srv s w idle (creates_relay true) = ground arith
relay_action-IsIdle lower srv s w idle (creates_relay false) = ground arith
relay_action-IsIdle lower srv s w idle (deletes_relay true relay) = ground arith
relay_action-IsIdle lower srv s w idle (deletes_relay false relay) = ground arith
relay_action-IsIdle lower srv s w idle (adds_exclusion true) = ground arith
relay_action-IsIdle lower srv s w idle (adds_exclusion false) = ground arith
relay_action-IsIdle lower srv s w idle (deletes_exclusion true exclusion) = ground arith
relay_action-IsIdle lower srv s w idle (deletes_exclusion false exclusion) = ground arith
