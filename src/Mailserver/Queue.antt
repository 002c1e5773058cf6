-- ===== src/Mailserver/Queue.antt =====
-- The section on the queue of Postfix: queue/queue.ts.
use mailserver_ui.Common.{
  ℕ, String, Bool, true, false, Option, none, some, List, [], if◌then◌else◌, ◌+++◌,
}
use mailserver_ui.Async.{Task, ◌>>=◌, ◌>>◌, try_catch, try_finally, await, modify, skip}
use mailserver_ui.Models.{QueueMessage}
use mailserver_ui.Api.{
  Call, Reply, RuntimeCall, runtime, get_queue, flush_queue, delete_queued_message,
  delete_all_queued,
}
use mailserver_ui.Mailserver.Texts.{mailserver_error_message}
pub mod Flags

-- `counts` is listed by `Object.entries`.
pub record Page : Type 0 where
  pub queue : List QueueMessage
  pub counts : List (String × ℕ)
  pub loading : Bool
  pub error : Option String
  pub success : Option String
  pub flushing : Bool
  pub deleting_queue_id : Option String

abbrev pub PageTask : Type 0
PageTask = Task Page Call Reply (Unit {0})

unfoldable pub load : PageTask
load = do
  modify (λ s. record s { loading = true; error = none })
  try_finally
      (try_catch
        (do
          summary ← await (runtime get_queue)
          modify (λ s. record s { queue = summary.messages; counts = summary.counts }))
        (λ err. modify (λ s. record s { error = some (mailserver_error_message err) })))
      (modify (λ s. record s { loading = false }))

-- The load is started, not awaited: it is the last thing the handler does.
unfoldable pub refresh : PageTask
unfolding load
refresh = do modify (λ s. record s { success = none }); load

-- What `onFlush` and `onDeleteAll` have in common but for the call and the message.
abbrev pub on_whole_queue : RuntimeCall → String → PageTask
on_whole_queue q message = do
  modify (λ s. record s { error = none; success = none; flushing = true })
  try_finally
      (try_catch (do _ ← await (runtime q); modify (λ s. record s { success = some message }); load)
        (λ err. modify (λ s. record s { error = some (mailserver_error_message err) })))
      (modify (λ s. record s { flushing = false }))

unfoldable pub on_flush : PageTask
unfolding load
on_flush = on_whole_queue flush_queue "Delivery attempted for every deferred message."

unfoldable pub on_delete_all : Bool → PageTask
unfolding load
on_delete_all confirmed =
    if confirmed then on_whole_queue delete_all_queued "The queue was emptied." else skip

unfoldable pub on_delete : Bool → QueueMessage → PageTask
unfolding load
on_delete confirmed message =
    if confirmed
    then (do
      modify (λ s. record s {
        error = none;
        success = none;
        deleting_queue_id = some message.queue_id;
      })
      try_finally
          (try_catch
            (do
              _ ← await (runtime (delete_queued_message message.queue_id))
              modify (λ s. record s {
                success = some ("Message " +++ message.queue_id +++ " deleted.");
              })
              load)
            (λ err. modify (λ s. record s { error = some (mailserver_error_message err) })))
          (modify (λ s. record s { deleting_queue_id = none })))
    else skip
