-- ===== src/Mailserver/Ldap.antt =====
-- The section on the LDAP maps: ldap/ldap.ts.
pub mod Flags
use mailserver_ui.Common.{String, Bool, true, false, Option, none, some, List, if◌then◌else◌, ◌+++◌}
use mailserver_ui.Async.{Task, ◌>>=◌, ◌>>◌, try_catch, try_finally, await, modify, read, skip}
use mailserver_ui.Models.{LdapScope}
use mailserver_ui.Api.{Call, Reply, filtering, get_ldap_config, set_ldap_config}
use mailserver_ui.Mailserver.Texts.{mailserver_error_message}

pub record Page : Type 0 where
  pub scope : LdapScope
  pub content : String
  pub configured : Bool
  pub provisioner : String
  pub ldap_enabled : Bool
  pub overridden_keys : List String
  pub loading : Bool
  pub saving : Bool
  pub error : Option String
  pub success : Option String

abbrev pub PageTask : Type 0
PageTask = Task Page Call Reply (Unit {0})

-- `this.current().filename`
unfoldable pub filename : LdapScope → String
filename LdapScope.users = "ldap-users.cf"
filename LdapScope.groups = "ldap-groups.cf"
filename LdapScope.aliases = "ldap-aliases.cf"
filename LdapScope.domains = "ldap-domains.cf"

unfoldable pub load : PageTask
load = do
  modify (λ s. record s { loading = true; error = none })
  try_finally
      (try_catch
        (do
          s ← read
          config ← await (filtering (get_ldap_config s.scope))
          modify (λ s. record s {
            content = config.content;
            configured = config.configured;
            provisioner = config.provisioner;
            ldap_enabled = config.ldap_enabled;
            overridden_keys = config.overridden_keys;
          }))
        (λ err. modify (λ s. record s { error = some (mailserver_error_message err) })))
      (modify (λ s. record s { loading = false }))

-- `a === b`
abbrev pub same_scope : LdapScope → LdapScope → Bool
same_scope LdapScope.users LdapScope.users = true
same_scope LdapScope.groups LdapScope.groups = true
same_scope LdapScope.aliases LdapScope.aliases = true
same_scope LdapScope.domains LdapScope.domains = true
same_scope a b = false

-- The load is started, not awaited: it is the last thing the handler does.
unfoldable pub set_scope : LdapScope → PageTask
unfolding load
set_scope scope = do
  s ← read
  if same_scope s.scope scope
      then skip
      else (do modify (λ s. record s { scope = scope; success = none }); load)

unfoldable pub on_content : String → PageTask
on_content value = modify (λ s. record s { content = value })

-- The file that the message names is the one that is open when the answer arrives.
unfoldable pub on_save : PageTask
on_save = do
  modify (λ s. record s { error = none; success = none; saving = true })
  try_finally
      (try_catch
        (do
          s ← read
          config ← await (filtering (set_ldap_config s.scope s.content))
          modify (λ s. record s {
            content = config.content;
            configured = config.configured;
            overridden_keys = config.overridden_keys;
            success = some (
                if config.configured
                then filename s.scope +++ " was saved. Restart the mailserver to apply it."
                else filename s.scope
                  +++ " was removed; docker-mailserver falls back to its default map.");
          }))
        (λ err. modify (λ s. record s { error = some (mailserver_error_message err) })))
      (modify (λ s. record s { saving = false }))
