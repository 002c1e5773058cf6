-- ===== src/Mailboxes/Handlers/Sieve.antt =====
-- The Sieve filter of the mailbox being managed.
use mailserver_ui.Common.{String, Bool, true, false, none, some, if◌then◌else◌, ◌+++◌}
use mailserver_ui.Async.{◌>>=◌, ◌>>◌, try_catch, try_finally, await, modify, read, skip}
use mailserver_ui.Api.{mailboxes, get_sieve_script, set_sieve_script, delete_sieve_script}
use mailserver_ui.Mailboxes.State.{PageTask, message_for}
use mailserver_ui.Mailboxes.Handlers.Aliases.{with_managed}

unfoldable pub load_sieve : String → PageTask
load_sieve email = do
  modify (λ s. record s { sieve_loading = true; sieve_content = ""; sieve_configured = false })
  try_finally
      (try_catch
        (do
          script ← await (mailboxes (get_sieve_script email))
          modify (λ s. record s {
            sieve_content = script.content;
            sieve_configured = script.configured;
          }))
        (λ _. modify (λ s. record s { sieve_error = some "Unable to load the Sieve filter." })))
      (modify (λ s. record s { sieve_loading = false }))

unfoldable pub on_sieve_input : String → PageTask
on_sieve_input value = modify (λ s. record s { sieve_content = value })

unfoldable pub save_sieve_call : String → PageTask
save_sieve_call email = do
  modify (λ s. record s { sieve_error = none; success_message = none; saving_sieve = true })
  try_finally
      (try_catch
        (do
          s ← read
          script ← await (mailboxes (set_sieve_script email s.sieve_content))
          modify (λ s. record s {
            sieve_content = script.content;
            sieve_configured = script.configured;
            success_message = some (
                if script.configured
                then "Sieve filter saved for " +++ email +++ ". Restart the mailserver to apply it."
                else "Sieve filter removed for " +++ email +++ ".");
          }))
        (λ err. modify (λ s. record s { sieve_error = some (message_for err) })))
      (modify (λ s. record s { saving_sieve = false }))

unfoldable pub on_save_sieve : PageTask
unfolding save_sieve_call
on_save_sieve = with_managed (λ email. save_sieve_call email)

unfoldable pub remove_sieve_call : String → PageTask
remove_sieve_call email = do
  modify (λ s. record s { sieve_error = none; success_message = none; removing_sieve = true })
  try_finally
      (try_catch
        (do
          await (mailboxes (delete_sieve_script email))
          modify (λ s. record s {
            sieve_content = "";
            sieve_configured = false;
            success_message = some ("Sieve filter removed for " +++ email +++ ".");
          }))
        (λ err. modify (λ s. record s { sieve_error = some (message_for err) })))
      (modify (λ s. record s { removing_sieve = false }))

unfoldable pub on_remove_sieve : Bool → PageTask
unfolding remove_sieve_call
on_remove_sieve confirmed =
    with_managed (λ email. if confirmed then remove_sieve_call email else skip)
