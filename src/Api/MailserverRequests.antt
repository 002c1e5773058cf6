-- ===== src/Api/MailserverRequests.antt =====
-- The requests of mailserver.service.ts. The words of the closed types are those of
-- mailserver.models.ts.
use mailserver_ui.Common.{ℕ, String, [], ◌∷◌, map, ◌+++◌}
use mailserver_ui.Models.{
  KeySize, size_1024, size_2048, size_4096, RestrictionKind, send, receive, SieveScope, before,
  after, SpamConfigScope, rules, whitelist_clients, whitelist_recipients, amavis, RspamdCommandKind,
  set_common_option, set_option_for_controller, set_option_for_proxy, enable_module, disable_module,
  set_option_for_module, add_line, LdapScope,
}
use mailserver_ui.Api.Json.{
  get, post, put, remove, text, number, texts, rows, text_or_null, Request, bare, with_body,
  with_params,
}
use mailserver_ui.Api.{
  RoutingCall, FilteringCall, RuntimeCall, list_relays, create_relay, delete_relay,
  list_relay_exclusions, create_relay_exclusion, delete_relay_exclusion, get_postfix_overrides,
  set_postfix_overrides, get_postfix_master_overrides, set_postfix_master_overrides,
  get_dovecot_config, set_dovecot_config, list_system_aliases, create_system_alias,
  delete_system_alias, list_regex_aliases, create_regex_alias, delete_regex_alias, list_dkim_keys,
  generate_dkim, get_dkim_migration_status, migrate_dkim_to_rspamd, list_restrictions,
  add_restriction, delete_restriction, get_mail_logs, list_dovecot_masters, create_dovecot_master,
  delete_dovecot_master, get_global_sieve, set_global_sieve, get_spam_config, set_spam_config,
  get_rspamd_overrides, set_rspamd_overrides, set_rspamd_override_file, delete_rspamd_override_file,
  get_ldap_config, set_ldap_config, get_queue, flush_queue, delete_queued_message,
  delete_all_queued, get_tls_certificate, list_dns_records, get_environment, list_services,
  get_mail_stats,
}

abbrev pub key_size_number : KeySize → ℕ
key_size_number size_1024 = 1024
key_size_number size_2048 = 2048
key_size_number size_4096 = 4096

abbrev pub restriction_kind_text : RestrictionKind → String
restriction_kind_text send = "send"
restriction_kind_text receive = "receive"

abbrev pub sieve_scope_text : SieveScope → String
sieve_scope_text before = "before"
sieve_scope_text after = "after"

abbrev pub spam_scope_text : SpamConfigScope → String
spam_scope_text rules = "rules"
spam_scope_text whitelist_clients = "whitelist-clients"
spam_scope_text whitelist_recipients = "whitelist-recipients"
spam_scope_text amavis = "amavis"

abbrev pub rspamd_kind_text : RspamdCommandKind → String
rspamd_kind_text set_common_option = "set-common-option"
rspamd_kind_text set_option_for_controller = "set-option-for-controller"
rspamd_kind_text set_option_for_proxy = "set-option-for-proxy"
rspamd_kind_text enable_module = "enable-module"
rspamd_kind_text disable_module = "disable-module"
rspamd_kind_text set_option_for_module = "set-option-for-module"
rspamd_kind_text add_line = "add-line"

abbrev pub ldap_scope_text : LdapScope → String
ldap_scope_text LdapScope.users = "users"
ldap_scope_text LdapScope.groups = "groups"
ldap_scope_text LdapScope.aliases = "aliases"
ldap_scope_text LdapScope.domains = "domains"

module _ (encode : String → String) where
  unfoldable pub routing_request : RoutingCall → Request
  routing_request list_relays = bare get "/api/mailserver/relays"
  routing_request (create_relay body) = with_body post "/api/mailserver/relays" (
      ("sender", text body.sender)
      ∷ ("host", text body.host)
      ∷ ("port", number body.port)
      ∷ ("username", text_or_null body.username)
      ∷ ("password", text_or_null body.password)
      ∷ [])
  routing_request (delete_relay sender) = bare remove ("/api/mailserver/relays/" +++ encode sender)
  routing_request list_relay_exclusions = bare get "/api/mailserver/relay-exclusions"
  routing_request (create_relay_exclusion sender) =
      with_body post "/api/mailserver/relay-exclusions" (("sender", text sender) ∷ [])
  routing_request (delete_relay_exclusion sender) =
      bare remove ("/api/mailserver/relay-exclusions/" +++ encode sender)
  routing_request get_postfix_overrides = bare get "/api/mailserver/postfix"
  routing_request (set_postfix_overrides overrides) =
      with_body put "/api/mailserver/postfix"
        (("overrides", rows (map (λ o. ("key", o.key) ∷ ("value", o.value) ∷ []) overrides)) ∷ [])
  routing_request get_postfix_master_overrides = bare get "/api/mailserver/postfix-master"
  routing_request (set_postfix_master_overrides overrides) =
      with_body put "/api/mailserver/postfix-master"
        (("overrides", rows (map (λ o. ("key", o.key) ∷ ("value", o.value) ∷ []) overrides)) ∷ [])
  routing_request get_dovecot_config = bare get "/api/mailserver/dovecot-config"
  routing_request (set_dovecot_config content) =
      with_body put "/api/mailserver/dovecot-config" (("content", text content) ∷ [])
  routing_request list_system_aliases = bare get "/api/mailserver/system-aliases"
  routing_request (create_system_alias name targets) =
      with_body post "/api/mailserver/system-aliases"
        (("name", text name) ∷ ("targets", texts targets) ∷ [])
  routing_request (delete_system_alias name) =
      bare remove ("/api/mailserver/system-aliases/" +++ encode name)
  routing_request list_regex_aliases = bare get "/api/mailserver/regex-aliases"
  routing_request (create_regex_alias pattern targets) =
      with_body post "/api/mailserver/regex-aliases"
        (("pattern", text pattern) ∷ ("targets", texts targets) ∷ [])
  routing_request (delete_regex_alias pattern) =
      with_params remove "/api/mailserver/regex-aliases" (("pattern", pattern) ∷ [])

  unfoldable pub filtering_request : FilteringCall → Request
  filtering_request list_dkim_keys = bare get "/api/mailserver/dkim"
  filtering_request (generate_dkim body) = with_body post "/api/mailserver/dkim" (
      ("domain", text_or_null body.domain)
      ∷ ("selector", text body.selector)
      ∷ ("key_size", number (key_size_number body.key_size))
      ∷ [])
  filtering_request get_dkim_migration_status = bare get "/api/mailserver/dkim/migration"
  filtering_request migrate_dkim_to_rspamd = bare post "/api/mailserver/dkim/migration"
  filtering_request (list_restrictions kind) =
      bare get ("/api/mailserver/restrictions/" +++ restriction_kind_text kind)
  filtering_request (add_restriction kind address) =
      with_body post ("/api/mailserver/restrictions/" +++ restriction_kind_text kind)
        (("address", text address) ∷ [])
  filtering_request (delete_restriction kind address) =
      bare remove
        ("/api/mailserver/restrictions/" +++ restriction_kind_text kind +++ "/" +++ encode address)
  filtering_request get_mail_logs = bare get "/api/mailserver/logs"
  filtering_request list_dovecot_masters = bare get "/api/mailserver/dovecot-masters"
  filtering_request (create_dovecot_master body) =
      with_body post "/api/mailserver/dovecot-masters"
        (("name", text body.name) ∷ ("password", text body.password) ∷ [])
  filtering_request (delete_dovecot_master name) =
      bare remove ("/api/mailserver/dovecot-masters/" +++ encode name)
  filtering_request (get_global_sieve scope) =
      bare get ("/api/mailserver/sieve/" +++ sieve_scope_text scope)
  filtering_request (set_global_sieve scope content) =
      with_body put ("/api/mailserver/sieve/" +++ sieve_scope_text scope)
        (("content", text content) ∷ [])
  filtering_request (get_spam_config scope) =
      bare get ("/api/mailserver/spam/" +++ spam_scope_text scope)
  filtering_request (set_spam_config scope content) =
      with_body put ("/api/mailserver/spam/" +++ spam_scope_text scope)
        (("content", text content) ∷ [])
  filtering_request get_rspamd_overrides = bare get "/api/mailserver/rspamd"
  filtering_request (set_rspamd_overrides commands) = with_body put "/api/mailserver/rspamd" (
      (
        "commands",
        rows (
            map
              (λ c.
                ("kind", rspamd_kind_text c.kind)
                ∷ ("target", c.target)
                ∷ ("option", c.option)
                ∷ ("value", c.value)
                ∷ [])
              commands),
      )
      ∷ [])
  filtering_request (set_rspamd_override_file name content) =
      with_body put ("/api/mailserver/rspamd/override/" +++ encode name)
        (("content", text content) ∷ [])
  filtering_request (delete_rspamd_override_file name) =
      bare remove ("/api/mailserver/rspamd/override/" +++ encode name)
  filtering_request (get_ldap_config scope) =
      bare get ("/api/mailserver/ldap/" +++ ldap_scope_text scope)
  filtering_request (set_ldap_config scope content) =
      with_body put ("/api/mailserver/ldap/" +++ ldap_scope_text scope)
        (("content", text content) ∷ [])

  unfoldable pub runtime_request : RuntimeCall → Request
  runtime_request get_queue = bare get "/api/mailserver/queue"
  runtime_request flush_queue = bare post "/api/mailserver/queue/flush"
  runtime_request (delete_queued_message queue_id) =
      bare remove ("/api/mailserver/queue/" +++ encode queue_id)
  runtime_request delete_all_queued = bare remove "/api/mailserver/queue"
  runtime_request get_tls_certificate = bare get "/api/mailserver/tls"
  runtime_request list_dns_records = bare get "/api/mailserver/dns"
  runtime_request get_environment = bare get "/api/mailserver/environment"
  runtime_request list_services = bare get "/api/mailserver/services"
  runtime_request get_mail_stats = bare get "/api/mailserver/stats"
