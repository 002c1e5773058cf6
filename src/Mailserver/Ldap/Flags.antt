-- ===== src/Mailserver/Ldap/Flags.antt =====
-- Every handler of the section on the LDAP maps ends with its spinner off and traps its failures.
use mailserver_ui.Common.{String, Bool, false, ◌≡◌, arith}
use mailserver_ui.Async.{ok, Server, run}
use mailserver_ui.Api.{Call, Reply}
use mailserver_ui.Models.{LdapScope}
use mailserver_ui.Mailserver.Ldap.{Page, PageTask, load, set_scope, on_content, on_save}

-- What happens in the section: its start, and what the user does.
pub data Action : Type 0 where
  opens : Action
  chooses : LdapScope → Action
  edits : String → Action
  saves : Action

pub record Spinners : Type 0 where
  pub loading : Bool
  pub saving : Bool

-- No operation is in progress.
abbrev pub IsIdle : Page → Type 0
IsIdle s =
    ◌≡◌ {A = Spinners} (record { loading = s.loading; saving = s.saving })
      (record { loading = false; saving = false })

unfoldable pub ldap_action : Action → PageTask
ldap_action opens = load
ldap_action (chooses scope) = set_scope scope
ldap_action (edits value) = on_content value
ldap_action saves = on_save

-- Whatever happens in the idle section and whatever the server answers, the handler runs to its end,
-- lets no failure escape, and leaves every spinner off.
pub ldap_action-IsIdle :
    (srv : Server Call Reply) (s : Page) (w : srv.World)
    → IsIdle s
    → (a : Action)
    → ((run srv (ldap_action a) s w).0 ≡ ok tt) × IsIdle (run srv (ldap_action a) s w).1
unfolding run ldap_action load set_scope on_content on_save
ldap_action-IsIdle srv s w idle opens = ground arith
ldap_action-IsIdle srv s w idle (chooses scope) = ground arith
ldap_action-IsIdle srv s w idle (edits value) = ground arith
ldap_action-IsIdle srv s w idle saves = ground arith
