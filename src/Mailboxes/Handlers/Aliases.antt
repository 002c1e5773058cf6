-- ===== src/Mailboxes/Handlers/Aliases.antt =====
-- The aliases of the mailbox being managed.
use mailserver_ui.Common.{String, Bool, true, false, none, some, [], if◌then◌else◌, is_empty, trim}
use mailserver_ui.Async.{◌>>=◌, ◌>>◌, try_catch, try_finally, await, modify, read, skip}
use mailserver_ui.Api.{mailboxes, list_aliases, add_alias, delete_alias}
use mailserver_ui.Mailboxes.State.{PageTask, message_for}

-- `const email = this.managingEmail(); if (!email) return;` before the rest of a handler. An empty
-- address counts as none.
abbrev pub with_managed : (String → PageTask) → PageTask
with_managed body = do
  s ← read
  elim s.managing_email [ none ↦ skip | some email ↦ if is_empty email then skip else body email ]

unfoldable pub load_aliases : String → PageTask
load_aliases email = do
  modify (λ s. record s { aliases_loading = true; aliases = [] })
  try_finally
      (try_catch
        (do
          found ← await (mailboxes (list_aliases email))
          modify (λ s. record s { aliases = found }))
        (λ _. modify (λ s. record s { alias_error = some "Unable to load aliases." })))
      (modify (λ s. record s { aliases_loading = false }))

unfoldable pub add_alias_call : String → String → PageTask
unfolding load_aliases
add_alias_call email alias = do
  modify (λ s. record s { adding_alias = true })
  try_finally
      (try_catch
        (do
          _ ← await (mailboxes (add_alias email alias))
          modify (λ s. record s { alias_model = "" })
          load_aliases email)
        (λ err. modify (λ s. record s { alias_error = some (message_for err) })))
      (modify (λ s. record s { adding_alias = false }))

unfoldable pub on_add_alias : (String → String) → Bool → PageTask
unfolding add_alias_call
on_add_alias lower valid = do
  modify (λ s. record s { alias_error = none })
  if valid
      then (do
        s ← read
        let alias = lower (trim s.alias_model)
        with_managed (λ email. if is_empty alias then skip else add_alias_call email alias))
      else skip

unfoldable pub remove_alias_call : String → String → PageTask
unfolding load_aliases
remove_alias_call email alias = do
  modify (λ s. record s { alias_error = none; removing_alias = some alias })
  try_finally
      (try_catch (do await (mailboxes (delete_alias email alias)); load_aliases email)
        (λ err. modify (λ s. record s { alias_error = some (message_for err) })))
      (modify (λ s. record s { removing_alias = none }))

unfoldable pub on_remove_alias : String → PageTask
unfolding remove_alias_call
on_remove_alias alias = with_managed (λ email. remove_alias_call email alias)
