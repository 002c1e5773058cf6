-- ===== src/Mailserver/Spam.antt =====
-- The section on the files of the spam filters: spam/spam.ts.
pub mod Flags
use mailserver_ui.Common.{String, Bool, true, false, Option, none, some, if◌then◌else◌, ◌+++◌}
use mailserver_ui.Async.{Task, ◌>>=◌, ◌>>◌, try_catch, try_finally, await, modify, read, skip}
use mailserver_ui.Models.{SpamConfigScope, rules, whitelist_clients, whitelist_recipients, amavis}
use mailserver_ui.Api.{Call, Reply, filtering, get_spam_config, set_spam_config}
use mailserver_ui.Mailserver.Texts.{mailserver_error_message}

pub record Page : Type 0 where
  pub scope : SpamConfigScope
  pub content : String
  pub feature_variable : String
  pub feature_enabled : Bool
  pub loading : Bool
  pub error : Option String
  pub success : Option String
  pub saving : Bool

abbrev pub PageTask : Type 0
PageTask = Task Page Call Reply (Unit {0})

-- `this.current().filename`
unfoldable pub filename : SpamConfigScope → String
filename rules = "spamassassin-rules.cf"
filename whitelist_clients = "whitelist_clients.local"
filename whitelist_recipients = "whitelist_recipients"
filename amavis = "amavis.cf"

unfoldable pub load : PageTask
load = do
  modify (λ s. record s { loading = true; error = none })
  try_finally
      (try_catch
        (do
          s ← read
          config ← await (filtering (get_spam_config s.scope))
          modify (λ s. record s {
            content = config.content;
            feature_variable = config.feature;
            feature_enabled = config.feature_enabled;
          }))
        (λ err. modify (λ s. record s { error = some (mailserver_error_message err) })))
      (modify (λ s. record s { loading = false }))

-- `a === b`
abbrev pub same_scope : SpamConfigScope → SpamConfigScope → Bool
same_scope rules rules = true
same_scope whitelist_clients whitelist_clients = true
same_scope whitelist_recipients whitelist_recipients = true
same_scope amavis amavis = true
same_scope a b = false

-- The load is started, not awaited: it is the last thing the handler does.
unfoldable pub set_scope : SpamConfigScope → PageTask
unfolding load
set_scope scope = do
  s ← read
  if same_scope s.scope scope
      then skip
      else (do modify (λ s. record s { scope = scope; success = none }); load)

unfoldable pub on_content : String → PageTask
on_content value = modify (λ s. record s { content = value })

-- The file that the message names is the one that is open when the answer arrives.
unfoldable pub on_save : PageTask
on_save = do
  modify (λ s. record s { error = none; success = none; saving = true })
  try_finally
      (try_catch
        (do
          s ← read
          config ← await (filtering (set_spam_config s.scope s.content))
          modify (λ s. record s {
            content = config.content;
            success = some (filename s.scope +++ " was saved. Restart the mailserver to apply it.");
          }))
        (λ err. modify (λ s. record s { error = some (mailserver_error_message err) })))
      (modify (λ s. record s { saving = false }))
