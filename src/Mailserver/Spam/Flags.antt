-- ===== src/Mailserver/Spam/Flags.antt =====
-- Every handler of the section on the spam filters ends with its spinner off and traps its failures.
use mailserver_ui.Common.{String, Bool, false, ◌≡◌, arith}
use mailserver_ui.Async.{ok, Server, run}
use mailserver_ui.Api.{Call, Reply}
use mailserver_ui.Models.{SpamConfigScope}
use mailserver_ui.Mailserver.Spam.{Page, PageTask, load, set_scope, on_content, on_save}

-- What happens in the section: its start, and what the user does.
pub data Action : Type 0 where
  opens : Action
  chooses : SpamConfigScope → Action
  edits : String → Action
  saves : Action

pub record Spinners : Type 0 where
  pub loading : Bool
  pub saving : Bool

-- No operation is in progress.
abbrev pub IsIdle : Page → Type 0
IsIdle s =
    ◌≡◌ {A = Spinners} (record { loading = s.loading; saving = s.saving })
      (record { loading = false; saving = false })

unfoldable pub spam_action : Action → PageTask
spam_action opens = load
spam_action (chooses scope) = set_scope scope
spam_action (edits value) = on_content value
spam_action saves = on_save

-- Whatever happens in the idle section and whatever the server answers, the handler runs to its end,
-- lets no failure escape, and leaves every spinner off.
pub spam_action-IsIdle :
    (srv : Server Call Reply) (s : Page) (w : srv.World)
    → IsIdle s
    → (a : Action)
    → ((run srv (spam_action a) s w).0 ≡ ok tt) × IsIdle (run srv (spam_action a) s w).1
unfolding run spam_action load set_scope on_content on_save
spam_action-IsIdle srv s w idle opens = ground arith
spam_action-IsIdle srv s w idle (chooses scope) = ground arith
spam_action-IsIdle srv s w idle (edits value) = ground arith
spam_action-IsIdle srv s w idle saves = ground arith
