-- ===== src/Models/Mail.antt =====
-- Mailboxes and fail2ban: mailbox.models.ts, fail2ban.models.ts.
use mailserver_ui.Common.{ℕ, String, Bool, Option, List}

pub record Mailbox : Type 0 where
  pub email : String
  pub domain : String
  pub quota : Option String

pub record MailboxUsage : Type 0 where
  pub email : String
  pub used_bytes : ℕ
  pub limit_bytes : Option ℕ
  pub percent : Option ℕ
  pub message_count : ℕ

pub record MailboxUsageSummary : Type 0 where
  pub mailboxes : List MailboxUsage
  pub total_used_bytes : ℕ
  pub total_limit_bytes : Option ℕ

pub record MailboxFeatures : Type 0 where
  pub quotas_enabled : Bool

pub record Alias : Type 0 where
  pub alias : String

pub record MailboxSieveScript : Type 0 where
  pub email : String
  pub content : String
  pub configured : Bool
  pub restart_required : Bool

pub record Fail2banJail : Type 0 where
  pub name : String
  pub currently_failed : ℕ
  pub total_failed : ℕ
  pub currently_banned : ℕ
  pub total_banned : ℕ
  pub banned_ips : List String
  pub file_list : List String

pub record Fail2banStatus : Type 0 where
  pub jails : List Fail2banJail
  pub fail2ban_enabled : Bool

pub record BannedIp : Type 0 where
  pub ip : String
  pub jail : String

pub record Fail2banPolicy : Type 0 where
  pub bantime : ℕ
  pub findtime : ℕ
  pub maxretry : ℕ
  pub configured : Bool
  pub restart_required : Bool

pub record Fail2banPolicyUpdateRequest : Type 0 where
  pub bantime : ℕ
  pub findtime : ℕ
  pub maxretry : ℕ

pub record Fail2banConfig : Type 0 where
  pub content : String
  pub restart_required : Bool
