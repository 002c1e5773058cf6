-- ===== src/Pending.antt =====
-- Settings changes that wait for a restart: frontend/src/app/core/pending-actions.service.ts and
-- frontend/src/app/shared/pending-actions-bell/pending-actions-bell.ts. The poll of the bell is one
-- more call of `refresh`.
pub mod Laws
use mailserver_ui.Common.{
  ℕ, String, Bool, true, false, Option, none, some, List, [], if◌then◌else◌, ◌==◌, not, filter,
  str_eq, length,
}
use mailserver_ui.Async.{
  Failure, http, other, Task, ◌>>=◌, ◌>>◌, try_catch, try_finally, await, modify,
}
use mailserver_ui.Models.{PendingAction}
use mailserver_ui.Api.{Call, Reply, pending, PendingCall, refresh, dismiss, dismiss_all, restart}

-- The items of the service, and the signals of the bell.
pub record Bell : Type 0 where
  pub items : List PendingAction
  pub restarting : Bool
  pub restart_error : Option String

abbrev pub BellTask : Type 0
BellTask = Task Bell Call Reply (Unit {0})

unfoldable pub badge_count : Bell → ℕ
badge_count b = length b.items

unfoldable pub restart_error_message : Failure → String
restart_error_message other = "Failed to restart the mailserver. Please try again."
restart_error_message (http status detail) =
    if status == 502
    then "The mailserver container could not be reached. Check the Docker socket mount."
    else "Failed to restart the mailserver. Please try again."

unfoldable pub refresh_items : BellTask
refresh_items = do
  summary ← await (pending refresh)
  modify (λ b. record b { items = summary.items })

unfoldable pub dismiss_item : String → BellTask
dismiss_item key = do
  await (pending (dismiss key))
  modify (λ b. record b { items = filter (λ item. not (str_eq item.key key)) b.items })

unfoldable pub dismiss_all_items : BellTask
dismiss_all_items = do await (pending dismiss_all); modify (λ b. record b { items = [] })

unfoldable pub restart_server : BellTask
restart_server = do
  summary ← await (pending restart)
  modify (λ b. record b { items = summary.items })

unfoldable pub on_restart : BellTask
unfolding restart_server
on_restart = do
  modify (λ b. record b { restarting = true; restart_error = none })
  try_finally
      (try_catch restart_server
        (λ err. modify (λ b. record b { restart_error = some (restart_error_message err) })))
      (modify (λ b. record b { restarting = false }))
