-- ===== src/Api/Mailserver.antt =====
-- mailserver.service.ts, in the order of its sections: relays, Postfix and Dovecot files and aliases;
-- keys, filters and restrictions; the running server.
use mailserver_ui.Common.{String, List}
use mailserver_ui.Models.{
  DkimGenerateRequest, DkimKey, DkimMigrationResult, DkimMigrationStatus, DomainDnsRecords,
  DovecotConfig, DovecotMaster, DovecotMasterCreateRequest, LdapConfig, LdapScope, MailStats,
  MailserverEnvironment, PostfixMasterOverride, PostfixOverride, QueueSummary, RegexAlias,
  RelayExclusion, RelayHost, RelayHostCreateRequest, Restriction, RestrictionKind, RspamdCommand,
  RspamdOverrideFile, RspamdOverrides, ServiceStatus, SieveScope, SieveScript, SpamConfig,
  SpamConfigScope, SystemAlias, TlsCertificate,
}

pub data RoutingCall : Type 0 where
  list_relays : RoutingCall
  create_relay : RelayHostCreateRequest → RoutingCall
  delete_relay : String → RoutingCall
  list_relay_exclusions : RoutingCall
  create_relay_exclusion : String → RoutingCall
  delete_relay_exclusion : String → RoutingCall
  get_postfix_overrides : RoutingCall
  set_postfix_overrides : List PostfixOverride → RoutingCall
  get_postfix_master_overrides : RoutingCall
  set_postfix_master_overrides : List PostfixMasterOverride → RoutingCall
  get_dovecot_config : RoutingCall
  set_dovecot_config : String → RoutingCall
  list_system_aliases : RoutingCall
  create_system_alias : String → List String → RoutingCall
  delete_system_alias : String → RoutingCall
  list_regex_aliases : RoutingCall
  create_regex_alias : String → List String → RoutingCall
  delete_regex_alias : String → RoutingCall

abbrev pub RoutingReply : RoutingCall → Type 0
RoutingReply list_relays = List RelayHost
RoutingReply (create_relay body) = RelayHost
RoutingReply (delete_relay sender) = Unit
RoutingReply list_relay_exclusions = List RelayExclusion
RoutingReply (create_relay_exclusion sender) = RelayExclusion
RoutingReply (delete_relay_exclusion sender) = Unit
RoutingReply get_postfix_overrides = List PostfixOverride
RoutingReply (set_postfix_overrides overrides) = List PostfixOverride
RoutingReply get_postfix_master_overrides = List PostfixMasterOverride
RoutingReply (set_postfix_master_overrides overrides) = List PostfixMasterOverride
RoutingReply get_dovecot_config = DovecotConfig
RoutingReply (set_dovecot_config content) = DovecotConfig
RoutingReply list_system_aliases = List SystemAlias
RoutingReply (create_system_alias name targets) = SystemAlias
RoutingReply (delete_system_alias name) = Unit
RoutingReply list_regex_aliases = List RegexAlias
RoutingReply (create_regex_alias pattern targets) = RegexAlias
RoutingReply (delete_regex_alias pattern) = Unit

pub data FilteringCall : Type 0 where
  list_dkim_keys : FilteringCall
  generate_dkim : DkimGenerateRequest → FilteringCall
  get_dkim_migration_status : FilteringCall
  migrate_dkim_to_rspamd : FilteringCall
  list_restrictions : RestrictionKind → FilteringCall
  add_restriction : RestrictionKind → String → FilteringCall
  delete_restriction : RestrictionKind → String → FilteringCall
  get_mail_logs : FilteringCall
  list_dovecot_masters : FilteringCall
  create_dovecot_master : DovecotMasterCreateRequest → FilteringCall
  delete_dovecot_master : String → FilteringCall
  get_global_sieve : SieveScope → FilteringCall
  set_global_sieve : SieveScope → String → FilteringCall
  get_spam_config : SpamConfigScope → FilteringCall
  set_spam_config : SpamConfigScope → String → FilteringCall
  get_rspamd_overrides : FilteringCall
  set_rspamd_overrides : List RspamdCommand → FilteringCall
  set_rspamd_override_file : String → String → FilteringCall
  delete_rspamd_override_file : String → FilteringCall
  get_ldap_config : LdapScope → FilteringCall
  set_ldap_config : LdapScope → String → FilteringCall

abbrev pub FilteringReply : FilteringCall → Type 0
FilteringReply list_dkim_keys = List DkimKey
FilteringReply (generate_dkim body) = List DkimKey
FilteringReply get_dkim_migration_status = DkimMigrationStatus
FilteringReply migrate_dkim_to_rspamd = DkimMigrationResult
FilteringReply (list_restrictions kind) = List Restriction
FilteringReply (add_restriction kind address) = Restriction
FilteringReply (delete_restriction kind address) = Unit
FilteringReply get_mail_logs = List String
FilteringReply list_dovecot_masters = List DovecotMaster
FilteringReply (create_dovecot_master body) = DovecotMaster
FilteringReply (delete_dovecot_master name) = Unit
FilteringReply (get_global_sieve scope) = SieveScript
FilteringReply (set_global_sieve scope content) = SieveScript
FilteringReply (get_spam_config scope) = SpamConfig
FilteringReply (set_spam_config scope content) = SpamConfig
FilteringReply get_rspamd_overrides = RspamdOverrides
FilteringReply (set_rspamd_overrides commands) = RspamdOverrides
FilteringReply (set_rspamd_override_file name content) = RspamdOverrideFile
FilteringReply (delete_rspamd_override_file name) = Unit
FilteringReply (get_ldap_config scope) = LdapConfig
FilteringReply (set_ldap_config scope content) = LdapConfig

pub data RuntimeCall : Type 0 where
  get_queue : RuntimeCall
  flush_queue : RuntimeCall
  delete_queued_message : String → RuntimeCall
  delete_all_queued : RuntimeCall
  get_tls_certificate : RuntimeCall
  list_dns_records : RuntimeCall
  get_environment : RuntimeCall
  list_services : RuntimeCall
  get_mail_stats : RuntimeCall

abbrev pub RuntimeReply : RuntimeCall → Type 0
RuntimeReply get_queue = QueueSummary
RuntimeReply flush_queue = String
RuntimeReply (delete_queued_message queue_id) = String
RuntimeReply delete_all_queued = String
RuntimeReply get_tls_certificate = TlsCertificate
RuntimeReply list_dns_records = List DomainDnsRecords
RuntimeReply get_environment = MailserverEnvironment
RuntimeReply list_services = List ServiceStatus
RuntimeReply get_mail_stats = MailStats
