-- ===== src/Api/Requests.antt =====
-- The HTTP request behind each call: the verb, the path and the body that the methods of
-- frontend/src/app/core/*.service.ts send. `encode` is the engine's `encodeURIComponent`.
use mailserver_ui.Common.{String, Option, none, some, List, [], ◌∷◌, ◌+++◌, number_text}
use mailserver_ui.Api.Json.{
  get, post, put, patch, remove, Value, text, flag, number, numbers, Request, text_or_null,
  number_or_null, bare, with_body,
}
use mailserver_ui.Api.MailserverRequests.{routing_request, filtering_request, runtime_request}
use mailserver_ui.Models.{Role, guest, mailbox_manager, admin}
use mailserver_ui.Api.{
  Call, auth, users, groups, pats, pending, mailboxes, fail2ban, routing, filtering, runtime,
  navigate, clipboard, AuthCall, login, UsersCall, change_own_password, change_password, set_active,
  GroupsCall, update, get_members, add_member, remove_member, add_members, PatsCall, revoke,
  PendingCall, refresh, dismiss, dismiss_all, restart, MailboxesCall, features, usage,
  reset_password, set_quota, list_aliases, add_alias, delete_alias, get_sieve_script,
  set_sieve_script, delete_sieve_script, Fail2banCall, get_status, list_banned, ban_ip, unban_ip,
  get_log, get_policy, set_policy, set_config,
}

abbrev pub role_text : Role → String
role_text guest = "guest"
role_text mailbox_manager = "mailbox_manager"
role_text admin = "admin"

unfoldable pub auth_request : AuthCall → Request
auth_request AuthCall.get_config = bare get "/api/auth/config"
auth_request AuthCall.me = bare get "/api/auth/me"
auth_request AuthCall.logout = bare post "/api/auth/logout"
auth_request (login c) =
    with_body post "/api/auth/login"
      (("username", text c.username) ∷ ("password", text c.password) ∷ [])

unfoldable pub users_request : UsersCall → Request
users_request UsersCall.me = bare get "/api/users/me"
users_request (change_own_password current new) =
    with_body patch "/api/users/me/password"
      (("current_password", text current) ∷ ("new_password", text new) ∷ [])
users_request UsersCall.list = bare get "/api/users"
users_request (UsersCall.create name shown password) =
    with_body post "/api/users"
      (("username", text name) ∷ ("display_name", text shown) ∷ ("password", text password) ∷ [])
users_request (UsersCall.delete id) = bare remove ("/api/users/" +++ number_text id)
users_request (change_password id new) =
    with_body patch ("/api/users/" +++ number_text id +++ "/password")
      (("new_password", text new) ∷ [])
users_request (set_active id active) =
    with_body patch ("/api/users/" +++ number_text id +++ "/status")
      (("is_active", flag active) ∷ [])

abbrev group_body : String → String → Role → List (String × Value)
group_body name description role =
    ("name", text name) ∷ ("description", text description) ∷ ("role", text (role_text role)) ∷ []

unfoldable pub groups_request : GroupsCall → Request
groups_request GroupsCall.list = bare get "/api/groups"
groups_request (GroupsCall.create name description role) =
    with_body post "/api/groups" (group_body name description role)
groups_request (update id name description role) =
    with_body patch ("/api/groups/" +++ number_text id) (group_body name description role)
groups_request (GroupsCall.delete id) = bare remove ("/api/groups/" +++ number_text id)
groups_request (get_members id) = bare get ("/api/groups/" +++ number_text id +++ "/members")
groups_request (add_member id user) =
    bare post ("/api/groups/" +++ number_text id +++ "/members/" +++ number_text user)
groups_request (remove_member id user) =
    bare remove ("/api/groups/" +++ number_text id +++ "/members/" +++ number_text user)
groups_request (add_members id chosen) =
    with_body post ("/api/groups/" +++ number_text id +++ "/members/batch")
      (("user_ids", numbers chosen) ∷ [])

unfoldable pub pats_request : PatsCall → Request
pats_request PatsCall.list = bare get "/api/users/me/pats"
pats_request (PatsCall.create name days) =
    with_body post "/api/users/me/pats"
      (("name", text name) ∷ ("expires_in_days", number_or_null days) ∷ [])
pats_request (revoke id) = bare remove ("/api/users/me/pats/" +++ number_text id)

module _ (encode : String → String) where
  unfoldable pub pending_request : PendingCall → Request
  pending_request refresh = bare get "/api/pending-actions"
  pending_request (dismiss key) = bare remove ("/api/pending-actions/" +++ encode key)
  pending_request dismiss_all = bare remove "/api/pending-actions"
  pending_request restart = bare post "/api/mailserver/restart"

  unfoldable pub mailboxes_request : MailboxesCall → Request
  mailboxes_request MailboxesCall.list = bare get "/api/mailboxes"
  mailboxes_request features = bare get "/api/mailboxes/features"
  mailboxes_request usage = bare get "/api/mailboxes/usage"
  mailboxes_request (MailboxesCall.create email password quota) =
      with_body post "/api/mailboxes"
        (("email", text email) ∷ ("password", text password) ∷ ("quota", text_or_null quota) ∷ [])
  mailboxes_request (reset_password email new) =
      with_body patch ("/api/mailboxes/" +++ encode email +++ "/password")
        (("new_password", text new) ∷ [])
  mailboxes_request (set_quota email quota) =
      with_body put ("/api/mailboxes/" +++ encode email +++ "/quota")
        (("quota", text_or_null quota) ∷ [])
  mailboxes_request (MailboxesCall.delete email) = bare remove ("/api/mailboxes/" +++ encode email)
  mailboxes_request (list_aliases email) =
      bare get ("/api/mailboxes/" +++ encode email +++ "/aliases")
  mailboxes_request (add_alias email alias) =
      with_body post ("/api/mailboxes/" +++ encode email +++ "/aliases")
        (("alias", text alias) ∷ [])
  mailboxes_request (delete_alias email alias) =
      bare remove ("/api/mailboxes/" +++ encode email +++ "/aliases/" +++ encode alias)
  mailboxes_request (get_sieve_script email) =
      bare get ("/api/mailboxes/" +++ encode email +++ "/sieve")
  mailboxes_request (set_sieve_script email content) =
      with_body put ("/api/mailboxes/" +++ encode email +++ "/sieve")
        (("content", text content) ∷ [])
  mailboxes_request (delete_sieve_script email) =
      bare remove ("/api/mailboxes/" +++ encode email +++ "/sieve")

  unfoldable pub fail2ban_request : Fail2banCall → Request
  fail2ban_request get_status = bare get "/api/fail2ban/status"
  fail2ban_request list_banned = bare get "/api/fail2ban/banned"
  fail2ban_request (ban_ip ip) = with_body post "/api/fail2ban/ban" (("ip", text ip) ∷ [])
  fail2ban_request (unban_ip ip) = bare remove ("/api/fail2ban/banned/" +++ encode ip)
  fail2ban_request get_log = bare get "/api/fail2ban/log"
  fail2ban_request get_policy = bare get "/api/fail2ban/policy"
  fail2ban_request (set_policy p) = with_body put "/api/fail2ban/policy" (
      ("bantime", number p.bantime)
      ∷ ("findtime", number p.findtime)
      ∷ ("maxretry", number p.maxretry)
      ∷ [])
  fail2ban_request Fail2banCall.get_config = bare get "/api/fail2ban/config"
  fail2ban_request (set_config content) =
      with_body put "/api/fail2ban/config" (("content", text content) ∷ [])

  -- The promises of the browser send nothing.
  abbrev pub request : Call → Option Request
  request (auth q) = some (auth_request q)
  request (users q) = some (users_request q)
  request (groups q) = some (groups_request q)
  request (pats q) = some (pats_request q)
  request (pending q) = some (pending_request q)
  request (mailboxes q) = some (mailboxes_request q)
  request (fail2ban q) = some (fail2ban_request q)
  request (routing q) = some (routing_request encode q)
  request (filtering q) = some (filtering_request encode q)
  request (runtime q) = some (runtime_request encode q)
  request (navigate path) = none
  request (clipboard t) = none
