-- ===== src/Auth/Expiry/MailserverPaths.antt =====
-- The paths of mailserver.service.ts.
use mailserver_ui.Common.{String, false, ◌≡◌, refl, ◌+++◌}
use mailserver_ui.Api.{
  RoutingCall, FilteringCall, RuntimeCall, add_restriction, create_dovecot_master,
  create_regex_alias, create_relay, create_relay_exclusion, create_system_alias, delete_all_queued,
  delete_dovecot_master, delete_queued_message, delete_regex_alias, delete_relay,
  delete_relay_exclusion, delete_restriction, delete_rspamd_override_file, delete_system_alias,
  flush_queue, generate_dkim, get_dkim_migration_status, get_dovecot_config, get_environment,
  get_global_sieve, get_ldap_config, get_mail_logs, get_mail_stats, get_postfix_master_overrides,
  get_postfix_overrides, get_queue, get_rspamd_overrides, get_spam_config, get_tls_certificate,
  list_dkim_keys, list_dns_records, list_dovecot_masters, list_regex_aliases, list_relay_exclusions,
  list_relays, list_restrictions, list_services, list_system_aliases, migrate_dkim_to_rspamd,
  set_dovecot_config, set_global_sieve, set_ldap_config, set_postfix_master_overrides,
  set_postfix_overrides, set_rspamd_override_file, set_rspamd_overrides, set_spam_config,
}
use mailserver_ui.Api.MailserverRequests.{
  restriction_kind_text, sieve_scope_text, spam_scope_text, ldap_scope_text, routing_request,
  filtering_request, runtime_request,
}
use mailserver_ui.Auth.Expiry.{is_ignored}
use mailserver_ui.Auth.Expiry.Prefixes.{is_ignored-differ}

module _ (encode : String → String) where
  pub is_ignored-routing : (q : RoutingCall) → is_ignored (routing_request encode q).url ≡ false
  unfolding routing_request
  is_ignored-routing list_relays = is_ignored-differ "/api/mailserver/relays" "" refl
  is_ignored-routing (create_relay body) = is_ignored-differ "/api/mailserver/relays" "" refl
  is_ignored-routing (delete_relay sender) =
      is_ignored-differ "/api/mailserver/relays/" (encode sender) refl
  is_ignored-routing list_relay_exclusions =
      is_ignored-differ "/api/mailserver/relay-exclusions" "" refl
  is_ignored-routing (create_relay_exclusion sender) =
      is_ignored-differ "/api/mailserver/relay-exclusions" "" refl
  is_ignored-routing (delete_relay_exclusion sender) =
      is_ignored-differ "/api/mailserver/relay-exclusions/" (encode sender) refl
  is_ignored-routing get_postfix_overrides = is_ignored-differ "/api/mailserver/postfix" "" refl
  is_ignored-routing (set_postfix_overrides overrides) =
      is_ignored-differ "/api/mailserver/postfix" "" refl
  is_ignored-routing get_postfix_master_overrides =
      is_ignored-differ "/api/mailserver/postfix-master" "" refl
  is_ignored-routing (set_postfix_master_overrides overrides) =
      is_ignored-differ "/api/mailserver/postfix-master" "" refl
  is_ignored-routing get_dovecot_config = is_ignored-differ "/api/mailserver/dovecot-config" "" refl
  is_ignored-routing (set_dovecot_config content) =
      is_ignored-differ "/api/mailserver/dovecot-config" "" refl
  is_ignored-routing list_system_aliases =
      is_ignored-differ "/api/mailserver/system-aliases" "" refl
  is_ignored-routing (create_system_alias name targets) =
      is_ignored-differ "/api/mailserver/system-aliases" "" refl
  is_ignored-routing (delete_system_alias name) =
      is_ignored-differ "/api/mailserver/system-aliases/" (encode name) refl
  is_ignored-routing list_regex_aliases = is_ignored-differ "/api/mailserver/regex-aliases" "" refl
  is_ignored-routing (create_regex_alias pattern targets) =
      is_ignored-differ "/api/mailserver/regex-aliases" "" refl
  is_ignored-routing (delete_regex_alias pattern) =
      is_ignored-differ "/api/mailserver/regex-aliases" "" refl

  pub is_ignored-filtering :
      (q : FilteringCall) → is_ignored (filtering_request encode q).url ≡ false
  unfolding filtering_request
  is_ignored-filtering list_dkim_keys = is_ignored-differ "/api/mailserver/dkim" "" refl
  is_ignored-filtering (generate_dkim body) = is_ignored-differ "/api/mailserver/dkim" "" refl
  is_ignored-filtering get_dkim_migration_status =
      is_ignored-differ "/api/mailserver/dkim/migration" "" refl
  is_ignored-filtering migrate_dkim_to_rspamd =
      is_ignored-differ "/api/mailserver/dkim/migration" "" refl
  is_ignored-filtering (list_restrictions kind) =
      is_ignored-differ "/api/mailserver/restrictions/" (restriction_kind_text kind) refl
  is_ignored-filtering (add_restriction kind address) =
      is_ignored-differ "/api/mailserver/restrictions/" (restriction_kind_text kind) refl
  is_ignored-filtering (delete_restriction kind address) =
      is_ignored-differ "/api/mailserver/restrictions/"
        (restriction_kind_text kind +++ "/" +++ encode address) refl
  is_ignored-filtering get_mail_logs = is_ignored-differ "/api/mailserver/logs" "" refl
  is_ignored-filtering list_dovecot_masters =
      is_ignored-differ "/api/mailserver/dovecot-masters" "" refl
  is_ignored-filtering (create_dovecot_master body) =
      is_ignored-differ "/api/mailserver/dovecot-masters" "" refl
  is_ignored-filtering (delete_dovecot_master name) =
      is_ignored-differ "/api/mailserver/dovecot-masters/" (encode name) refl
  is_ignored-filtering (get_global_sieve scope) =
      is_ignored-differ "/api/mailserver/sieve/" (sieve_scope_text scope) refl
  is_ignored-filtering (set_global_sieve scope content) =
      is_ignored-differ "/api/mailserver/sieve/" (sieve_scope_text scope) refl
  is_ignored-filtering (get_spam_config scope) =
      is_ignored-differ "/api/mailserver/spam/" (spam_scope_text scope) refl
  is_ignored-filtering (set_spam_config scope content) =
      is_ignored-differ "/api/mailserver/spam/" (spam_scope_text scope) refl
  is_ignored-filtering get_rspamd_overrides = is_ignored-differ "/api/mailserver/rspamd" "" refl
  is_ignored-filtering (set_rspamd_overrides commands) =
      is_ignored-differ "/api/mailserver/rspamd" "" refl
  is_ignored-filtering (set_rspamd_override_file name content) =
      is_ignored-differ "/api/mailserver/rspamd/override/" (encode name) refl
  is_ignored-filtering (delete_rspamd_override_file name) =
      is_ignored-differ "/api/mailserver/rspamd/override/" (encode name) refl
  is_ignored-filtering (get_ldap_config scope) =
      is_ignored-differ "/api/mailserver/ldap/" (ldap_scope_text scope) refl
  is_ignored-filtering (set_ldap_config scope content) =
      is_ignored-differ "/api/mailserver/ldap/" (ldap_scope_text scope) refl

  pub is_ignored-runtime : (q : RuntimeCall) → is_ignored (runtime_request encode q).url ≡ false
  unfolding runtime_request
  is_ignored-runtime get_queue = is_ignored-differ "/api/mailserver/queue" "" refl
  is_ignored-runtime flush_queue = is_ignored-differ "/api/mailserver/queue/flush" "" refl
  is_ignored-runtime (delete_queued_message queue_id) =
      is_ignored-differ "/api/mailserver/queue/" (encode queue_id) refl
  is_ignored-runtime delete_all_queued = is_ignored-differ "/api/mailserver/queue" "" refl
  is_ignored-runtime get_tls_certificate = is_ignored-differ "/api/mailserver/tls" "" refl
  is_ignored-runtime list_dns_records = is_ignored-differ "/api/mailserver/dns" "" refl
  is_ignored-runtime get_environment = is_ignored-differ "/api/mailserver/environment" "" refl
  is_ignored-runtime list_services = is_ignored-differ "/api/mailserver/services" "" refl
  is_ignored-runtime get_mail_stats = is_ignored-differ "/api/mailserver/stats" "" refl
