-- ===== src/Models/Health.antt =====
-- The state of the running mail server: mailserver.models.ts.
use mailserver_ui.Common.{ℕ, String, Bool, Option, List, ℤ}

pub data DnsType : Type 0 where
  mx txt a cname : DnsType

-- `no_filter` is the text "none".
pub data SpamFilter : Type 0 where
  rspamd spamassassin no_filter : SpamFilter

pub data WarningLevel : Type 0 where
  danger warning : WarningLevel

pub data DkimBackend : Type 0 where
  opendkim rspamd : DkimBackend

pub record QueueMessage : Type 0 where
  pub queue_id : String
  pub queue_name : String
  pub sender : String
  pub recipients : List String
  pub message_size : ℕ
  pub arrival_time : Option String
  pub delay_reason : String

pub record QueueSummary : Type 0 where
  pub messages : List QueueMessage
  pub counts : List (String × ℕ)

pub record TlsCertificate : Type 0 where
  pub ssl_type : String
  pub configured : Bool
  pub subject : String
  pub issuer : String
  pub not_before : Option String
  pub not_after : Option String
  pub days_remaining : Option ℤ
  pub domains : List String

pub record DnsRecord : Type 0 where
  pub name : String
  pub kind : DnsType
  pub value : String
  pub suggested : Bool

pub record DomainDnsRecords : Type 0 where
  pub domain : String
  pub records : List DnsRecord

pub record EnvironmentWarning : Type 0 where
  pub level : WarningLevel
  pub variables : List String
  pub message : String

pub record MailserverEnvironment : Type 0 where
  pub variables : List (String × String)
  pub dkim_backend : DkimBackend
  pub global_relay_host : String
  pub postmaster_address : String
  pub ssl_type : String
  pub account_provisioner : String
  pub managesieve_enabled : Bool
  pub quotas_enabled : Bool
  pub spam_filter : SpamFilter
  pub amavis_enabled : Bool
  pub clamav_enabled : Bool
  pub postgrey_enabled : Bool
  pub update_check_enabled : Bool
  pub warnings : List EnvironmentWarning

pub record ServiceStatus : Type 0 where
  pub name : String
  pub state : String
  pub running : Bool
  pub failed : Bool
  pub detail : String

pub record MailStats : Type 0 where
  pub period_hours : ℕ
  pub received : ℕ
  pub sent : ℕ
  pub rejected : ℕ
  pub greylisted : ℕ
  pub bounced : ℕ
  pub deferred : ℕ
  pub spam : ℕ
  pub virus : ℕ
  pub parsed : Bool
  pub scanned_lines : ℕ
