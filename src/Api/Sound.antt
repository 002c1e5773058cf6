-- ===== src/Api/Sound.antt =====
-- What a request that a page sends has to satisfy, by the checks of the forms.
use mailserver_ui.Common.{
  ℕ, ◌≤◌, String, Bool, true, false, Option, none, some, List, [], ◌∷◌, ◌≡◌, text_length, is_empty,
  trim, includes, All,
}
use mailserver_ui.Api.{
  Call, users, groups, pats, mailboxes, fail2ban, routing, filtering, RoutingCall, FilteringCall,
  Fail2banCall, UsersCall, GroupsCall, PatsCall, MailboxesCall,
}
use mailserver_ui.Models.{Fail2banPolicyUpdateRequest}
use mailserver_ui.Mailserver.Texts.{is_regex_alias, no_targets}
use mailserver_ui.Mailserver.Postfix.{is_parameter, is_master_parameter}
use mailserver_ui.Mailserver.Rspamd.Rules.{IsCommand}
use mailserver_ui.Mailboxes.Quota.{QuotaFormat}

-- A new password of at least eight UTF-16 code units.
abbrev pub IsLong : String → Type 0
IsLong password = 8 ≤ text_length password

abbrev pub is_empty_list : List ℕ → Bool
is_empty_list [] = true
is_empty_list (i ∷ ids) = false

-- No quota, or one of the format.
abbrev pub IsQuotaOrNone : Option String → Type 0
IsQuotaOrNone none = Unit
IsQuotaOrNone (some quota) = QuotaFormat quota

abbrev pub IsSoundUsers : UsersCall → Type 0
IsSoundUsers (UsersCall.create name shown password) = IsLong password
IsSoundUsers (UsersCall.change_password id password) = IsLong password
IsSoundUsers (UsersCall.change_own_password current password) = IsLong password
IsSoundUsers _ = Unit

abbrev pub IsSoundGroups : GroupsCall → Type 0
IsSoundGroups (GroupsCall.create name description role) = is_empty (trim name) ≡ false
IsSoundGroups (GroupsCall.update id name description role) = is_empty (trim name) ≡ false
IsSoundGroups (GroupsCall.add_members id chosen) = is_empty_list chosen ≡ false
IsSoundGroups _ = Unit

abbrev pub IsSoundPats : PatsCall → Type 0
IsSoundPats (PatsCall.create name days) = is_empty name ≡ false
IsSoundPats _ = Unit

abbrev pub IsSoundMailboxes : MailboxesCall → Type 0
IsSoundMailboxes (MailboxesCall.create email password quota) = IsLong password × IsQuotaOrNone quota
IsSoundMailboxes (MailboxesCall.reset_password email password) = IsLong password
IsSoundMailboxes (MailboxesCall.set_quota email quota) = IsQuotaOrNone quota
IsSoundMailboxes _ = Unit

-- A ban and a detection window of at least a minute, and 1 to 100 retries.
abbrev pub IsPolicy : Fail2banPolicyUpdateRequest → Type 0
IsPolicy p = ((60 ≤ p.bantime) × (60 ≤ p.findtime)) × ((1 ≤ p.maxretry) × (p.maxretry ≤ 100))

abbrev pub IsSoundFail2ban : Fail2banCall → Type 0
IsSoundFail2ban (Fail2banCall.set_policy body) = IsPolicy body
IsSoundFail2ban _ = Unit

-- A relay for a sender with an `@` and through a port of 16 bits that is not 0.
abbrev pub IsSoundRouting : RoutingCall → Type 0
IsSoundRouting (RoutingCall.create_relay body) =
    (includes body.sender "@" ≡ true) × ((1 ≤ body.port) × (body.port ≤ 65535))
IsSoundRouting (RoutingCall.create_relay_exclusion sender) = includes sender "@" ≡ true
IsSoundRouting (RoutingCall.create_system_alias name targets) =
    (includes name "@" ≡ false) × (no_targets targets ≡ false)
IsSoundRouting (RoutingCall.create_regex_alias pattern targets) =
    (is_regex_alias pattern ≡ true) × (no_targets targets ≡ false)
IsSoundRouting (RoutingCall.set_postfix_overrides overrides) =
    All (λ o. is_parameter o.key ≡ true) overrides
IsSoundRouting (RoutingCall.set_postfix_master_overrides overrides) =
    All (λ o. is_master_parameter o.key ≡ true) overrides
IsSoundRouting _ = Unit

abbrev pub IsSoundFiltering : FilteringCall → Type 0
IsSoundFiltering (FilteringCall.add_restriction kind address) = includes address "@" ≡ true
IsSoundFiltering (FilteringCall.set_rspamd_overrides commands) = All IsCommand commands
IsSoundFiltering _ = Unit

-- What each page checks before it sends: a new password is long enough, a quota is of the format, a
-- group and a token have a name that is not blank, a batch of members is not empty, and a ban policy
-- is within its bounds; a relay and a restriction are for a text with an `@`, a relay has a port from
-- 1 to 65535, an alias has a destination, a command of Rspamd is
-- well formed, and so is the name of a parameter of Postfix.
abbrev pub IsSound : Call → Type 0
IsSound (users q) = IsSoundUsers q
IsSound (groups q) = IsSoundGroups q
IsSound (pats q) = IsSoundPats q
IsSound (mailboxes q) = IsSoundMailboxes q
IsSound (fail2ban q) = IsSoundFail2ban q
IsSound (routing q) = IsSoundRouting q
IsSound (filtering q) = IsSoundFiltering q
IsSound _ = Unit
