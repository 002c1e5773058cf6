-- ===== src/Mailserver/Queue/Flags.antt =====
-- Every handler of the section on the queue ends with its spinner off and traps its failures.
use mailserver_ui.Common.{String, Bool, true, false, Option, none, ◌≡◌, arith}
use mailserver_ui.Async.{ok, Server, run}
use mailserver_ui.Api.{Call, Reply}
use mailserver_ui.Models.{QueueMessage}
use mailserver_ui.Mailserver.Queue.{
  Page, PageTask, load, refresh, on_flush, on_delete_all, on_delete,
}

-- What happens in the section: its start, and what the user does.
pub data Action : Type 0 where
  opens : Action
  refreshes : Action
  flushes : Action
  deletes_all : Bool → Action
  deletes : Bool → QueueMessage → Action

pub record Spinners : Type 0 where
  pub loading : Bool
  pub flushing : Bool
  pub deleting_queue_id : Option String

-- No operation is in progress.
abbrev pub IsIdle : Page → Type 0
IsIdle s =
    ◌≡◌ {A = Spinners}
      (record {
        loading = s.loading;
        flushing = s.flushing;
        deleting_queue_id = s.deleting_queue_id;
      })
      (record { loading = false; flushing = false; deleting_queue_id = none })

unfoldable pub queue_action : Action → PageTask
queue_action opens = load
queue_action refreshes = refresh
queue_action flushes = on_flush
queue_action (deletes_all confirmed) = on_delete_all confirmed
queue_action (deletes confirmed message) = on_delete confirmed message

-- Whatever happens in the idle section and whatever the server answers, the handler runs to its end,
-- lets no failure escape, and leaves every spinner off.
pub queue_action-IsIdle :
    (srv : Server Call Reply) (s : Page) (w : srv.World)
    → IsIdle s
    → (a : Action)
    → ((run srv (queue_action a) s w).0 ≡ ok tt) × IsIdle (run srv (queue_action a) s w).1
unfolding run queue_action load refresh on_flush on_delete_all on_delete
queue_action-IsIdle srv s w idle opens = ground arith
queue_action-IsIdle srv s w idle refreshes = ground arith
queue_action-IsIdle srv s w idle flushes = ground arith
queue_action-IsIdle srv s w idle (deletes_all true) = ground arith
queue_action-IsIdle srv s w idle (deletes_all false) = ground arith
queue_action-IsIdle srv s w idle (deletes true message) = ground arith
queue_action-IsIdle srv s w idle (deletes false message) = ground arith
