-- ===== src/Api/Mail.antt =====
-- mailboxes.service.ts, fail2ban.service.ts.
use mailserver_ui.Common.{String, Option, List}
use mailserver_ui.Models.{
  Mailbox, MailboxUsageSummary, MailboxFeatures, Alias, MailboxSieveScript, Fail2banStatus,
  BannedIp, Fail2banPolicy, Fail2banPolicyUpdateRequest, Fail2banConfig,
}

pub data MailboxesCall : Type 0 where
  list features usage : MailboxesCall
  create : String → String → Option String → MailboxesCall
  reset_password : String → String → MailboxesCall
  set_quota : String → Option String → MailboxesCall
  delete : String → MailboxesCall
  list_aliases : String → MailboxesCall
  add_alias : String → String → MailboxesCall
  delete_alias : String → String → MailboxesCall
  get_sieve_script : String → MailboxesCall
  set_sieve_script : String → String → MailboxesCall
  delete_sieve_script : String → MailboxesCall

abbrev pub MailboxesReply : MailboxesCall → Type 0
MailboxesReply list = List Mailbox
MailboxesReply features = MailboxFeatures
MailboxesReply usage = MailboxUsageSummary
MailboxesReply (create email password quota) = Mailbox
MailboxesReply (reset_password email new) = Mailbox
MailboxesReply (set_quota email quota) = Mailbox
MailboxesReply (delete email) = Unit
MailboxesReply (list_aliases email) = List Alias
MailboxesReply (add_alias email alias) = Alias
MailboxesReply (delete_alias email alias) = Unit
MailboxesReply (get_sieve_script email) = MailboxSieveScript
MailboxesReply (set_sieve_script email content) = MailboxSieveScript
MailboxesReply (delete_sieve_script email) = Unit

-- Both `banIp` and `unbanIp` resolve to the output of a command.
pub data Fail2banCall : Type 0 where
  get_status list_banned : Fail2banCall
  ban_ip unban_ip : String → Fail2banCall
  get_log get_policy : Fail2banCall
  set_policy : Fail2banPolicyUpdateRequest → Fail2banCall
  get_config : Fail2banCall
  set_config : String → Fail2banCall

abbrev pub Fail2banReply : Fail2banCall → Type 0
Fail2banReply get_status = Fail2banStatus
Fail2banReply list_banned = List BannedIp
Fail2banReply (ban_ip ip) = String
Fail2banReply (unban_ip ip) = String
Fail2banReply get_log = List String
Fail2banReply get_policy = Fail2banPolicy
Fail2banReply (set_policy body) = Fail2banPolicy
Fail2banReply get_config = Fail2banConfig
Fail2banReply (set_config content) = Fail2banConfig
