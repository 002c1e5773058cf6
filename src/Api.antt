-- ===== src/Api.antt =====
-- The calls of the REST API, a data type for each service of frontend/src/app/core, with what each
-- call resolves to. The backend that answers them is a `Server`, a parameter of all that follows.
mod Accounts
mod Mail
mod Mailserver
pub mod Json
pub mod MailserverRequests
pub mod Sound
pub mod Requests
pub use Accounts.*
pub use Mail.*
pub use Mailserver.*
use mailserver_ui.Common.{String, Bool}

-- All calls, and two promises of the browser: the router's `navigate` and the clipboard's
-- `writeText`.
pub data Call : Type 0 where
  auth : AuthCall → Call
  users : UsersCall → Call
  groups : GroupsCall → Call
  pats : PatsCall → Call
  pending : PendingCall → Call
  mailboxes : MailboxesCall → Call
  fail2ban : Fail2banCall → Call
  routing : RoutingCall → Call
  filtering : FilteringCall → Call
  runtime : RuntimeCall → Call
  navigate : String → Call
  clipboard : String → Call

abbrev pub Reply : Call → Type 0
Reply (auth q) = AuthReply q
Reply (users q) = UsersReply q
Reply (groups q) = GroupsReply q
Reply (pats q) = PatsReply q
Reply (pending q) = PendingReply q
Reply (mailboxes q) = MailboxesReply q
Reply (fail2ban q) = Fail2banReply q
Reply (routing q) = RoutingReply q
Reply (filtering q) = FilteringReply q
Reply (runtime q) = RuntimeReply q
Reply (navigate path) = Bool
Reply (clipboard text) = Unit
