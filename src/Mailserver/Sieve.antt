-- ===== src/Mailserver/Sieve.antt =====
-- The section on the global Sieve scripts: sieve/sieve.ts.
pub mod Overlap
pub mod Flags
use mailserver_ui.Common.{String, Bool, true, false, Option, none, some, if◌then◌else◌, ◌+++◌}
use mailserver_ui.Async.{Task, ◌>>=◌, ◌>>◌, try_catch, try_finally, await, modify, read, skip}
use mailserver_ui.Models.{SieveScope, before, after}
use mailserver_ui.Api.{Call, Reply, filtering, get_global_sieve, set_global_sieve}
use mailserver_ui.Api.MailserverRequests.{sieve_scope_text}
use mailserver_ui.Mailserver.Texts.{mailserver_error_message}

pub record Page : Type 0 where
  pub scope : SieveScope
  pub content : String
  pub loading : Bool
  pub error : Option String
  pub success : Option String
  pub saving : Bool

abbrev pub PageTask : Type 0
PageTask = Task Page Call Reply (Unit {0})

unfoldable pub load : PageTask
load = do
  modify (λ s. record s { loading = true; error = none })
  try_finally
      (try_catch
        (do
          s ← read
          script ← await (filtering (get_global_sieve s.scope))
          modify (λ s. record s { content = script.content }))
        (λ err. modify (λ s. record s { error = some "Unable to load the Sieve script." })))
      (modify (λ s. record s { loading = false }))

-- `a === b`
abbrev pub same_scope : SieveScope → SieveScope → Bool
same_scope before before = true
same_scope after after = true
same_scope a b = false

-- The load is started, not awaited: it is the last thing the handler does.
unfoldable pub set_scope : SieveScope → PageTask
unfolding load
set_scope scope = do
  s ← read
  if same_scope s.scope scope
      then skip
      else (do modify (λ s. record s { scope = scope; success = none }); load)

unfoldable pub on_content : String → PageTask
on_content value = modify (λ s. record s { content = value })

unfoldable pub on_save : PageTask
on_save = do
  modify (λ s. record s { error = none; success = none; saving = true })
  try_finally
      (try_catch
        (do
          s ← read
          script ← await (filtering (set_global_sieve s.scope s.content))
          modify (λ s. record s {
            content = script.content;
            success = some (
                "The \""
                +++ sieve_scope_text script.scope
                +++ "\" script was saved. Restart the mailserver to compile it.");
          }))
        (λ err. modify (λ s. record s { error = some (mailserver_error_message err) })))
      (modify (λ s. record s { saving = false }))
