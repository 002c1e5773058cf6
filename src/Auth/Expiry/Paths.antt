-- ===== src/Auth/Expiry/Paths.antt =====
-- Which calls the interceptor looks at, by the paths that the services send.
use mailserver_ui.Common.{String, Bool, true, false, Option, some, ◌≡◌, refl, sym, arith, not, ◌||◌}
use mailserver_ui.Async.{http, err}
use mailserver_ui.Api.{
  Call, auth, users, groups, pats, pending, mailboxes, fail2ban, routing, filtering, runtime,
  AuthCall, UsersCall, GroupsCall, navigate, clipboard, login, change_own_password, change_password,
  set_active, update, get_members, add_member, remove_member, add_members, revoke, refresh, dismiss,
  dismiss_all, restart, features, usage, reset_password, set_quota, list_aliases, add_alias,
  delete_alias, get_sieve_script, set_sieve_script, delete_sieve_script, get_status, list_banned,
  ban_ip, unban_ip, get_log, get_policy, set_policy, set_config, PatsCall, PendingCall,
  MailboxesCall, Fail2banCall,
}
use mailserver_ui.Api.Json.{Request}
use mailserver_ui.Api.Requests.{
  auth_request, users_request, groups_request, pats_request, pending_request, mailboxes_request,
  fail2ban_request, request,
}
use mailserver_ui.Auth.Expiry.Prefixes.{is_ignored-differ}
use mailserver_ui.Auth.Expiry.MailserverPaths.{
  is_ignored-routing, is_ignored-filtering, is_ignored-runtime,
}
use mailserver_ui.Auth.Expiry.{is_ignored, intercept}

-- The calls that ask for the session itself.
abbrev pub is_session : Call → Bool
is_session (auth q) = true
is_session q = false

is_ignored-auth : (q : AuthCall) → is_ignored (auth_request q).url ≡ true
unfolding is_ignored auth_request
is_ignored-auth AuthCall.get_config = refl
is_ignored-auth AuthCall.me = refl
is_ignored-auth AuthCall.logout = refl
is_ignored-auth (login c) = refl

is_ignored-users : (q : UsersCall) → is_ignored (users_request q).url ≡ false
unfolding users_request
is_ignored-users UsersCall.me = is_ignored-differ "/api/users/me" "" refl
is_ignored-users (change_own_password current new) =
    is_ignored-differ "/api/users/me/password" "" refl
is_ignored-users UsersCall.list = is_ignored-differ "/api/users" "" refl
is_ignored-users (UsersCall.create name shown password) = is_ignored-differ "/api/users" "" refl
is_ignored-users (UsersCall.delete id) = is_ignored-differ "/api/users/" _ refl
is_ignored-users (change_password id new) = is_ignored-differ "/api/users/" _ refl
is_ignored-users (set_active id active) = is_ignored-differ "/api/users/" _ refl

is_ignored-groups : (q : GroupsCall) → is_ignored (groups_request q).url ≡ false
unfolding groups_request
is_ignored-groups GroupsCall.list = is_ignored-differ "/api/groups" "" refl
is_ignored-groups (GroupsCall.create name description role) =
    is_ignored-differ "/api/groups" "" refl
is_ignored-groups (update id name description role) = is_ignored-differ "/api/groups/" _ refl
is_ignored-groups (GroupsCall.delete id) = is_ignored-differ "/api/groups/" _ refl
is_ignored-groups (get_members id) = is_ignored-differ "/api/groups/" _ refl
is_ignored-groups (add_member id user) = is_ignored-differ "/api/groups/" _ refl
is_ignored-groups (remove_member id user) = is_ignored-differ "/api/groups/" _ refl
is_ignored-groups (add_members id chosen) = is_ignored-differ "/api/groups/" _ refl

is_ignored-pats : (q : PatsCall) → is_ignored (pats_request q).url ≡ false
unfolding pats_request
is_ignored-pats PatsCall.list = is_ignored-differ "/api/users/me/pats" "" refl
is_ignored-pats (PatsCall.create name days) = is_ignored-differ "/api/users/me/pats" "" refl
is_ignored-pats (revoke id) = is_ignored-differ "/api/users/me/pats/" _ refl

module _ (encode : String → String) where
  is_ignored-pending : (q : PendingCall) → is_ignored (pending_request encode q).url ≡ false
  unfolding pending_request
  is_ignored-pending refresh = is_ignored-differ "/api/pending-actions" "" refl
  is_ignored-pending (dismiss key) = is_ignored-differ "/api/pending-actions/" _ refl
  is_ignored-pending dismiss_all = is_ignored-differ "/api/pending-actions" "" refl
  is_ignored-pending restart = is_ignored-differ "/api/mailserver/restart" "" refl

  is_ignored-mailboxes : (q : MailboxesCall) → is_ignored (mailboxes_request encode q).url ≡ false
  unfolding mailboxes_request
  is_ignored-mailboxes MailboxesCall.list = is_ignored-differ "/api/mailboxes" "" refl
  is_ignored-mailboxes features = is_ignored-differ "/api/mailboxes/features" "" refl
  is_ignored-mailboxes usage = is_ignored-differ "/api/mailboxes/usage" "" refl
  is_ignored-mailboxes (MailboxesCall.create email password quota) =
      is_ignored-differ "/api/mailboxes" "" refl
  is_ignored-mailboxes (reset_password email new) = is_ignored-differ "/api/mailboxes/" _ refl
  is_ignored-mailboxes (set_quota email quota) = is_ignored-differ "/api/mailboxes/" _ refl
  is_ignored-mailboxes (MailboxesCall.delete email) = is_ignored-differ "/api/mailboxes/" _ refl
  is_ignored-mailboxes (list_aliases email) = is_ignored-differ "/api/mailboxes/" _ refl
  is_ignored-mailboxes (add_alias email alias) = is_ignored-differ "/api/mailboxes/" _ refl
  is_ignored-mailboxes (delete_alias email alias) = is_ignored-differ "/api/mailboxes/" _ refl
  is_ignored-mailboxes (get_sieve_script email) = is_ignored-differ "/api/mailboxes/" _ refl
  is_ignored-mailboxes (set_sieve_script email content) = is_ignored-differ "/api/mailboxes/" _ refl
  is_ignored-mailboxes (delete_sieve_script email) = is_ignored-differ "/api/mailboxes/" _ refl

  is_ignored-fail2ban : (q : Fail2banCall) → is_ignored (fail2ban_request encode q).url ≡ false
  unfolding fail2ban_request
  is_ignored-fail2ban get_status = is_ignored-differ "/api/fail2ban/status" "" refl
  is_ignored-fail2ban list_banned = is_ignored-differ "/api/fail2ban/banned" "" refl
  is_ignored-fail2ban (ban_ip ip) = is_ignored-differ "/api/fail2ban/ban" "" refl
  is_ignored-fail2ban (unban_ip ip) = is_ignored-differ "/api/fail2ban/banned/" _ refl
  is_ignored-fail2ban get_log = is_ignored-differ "/api/fail2ban/log" "" refl
  is_ignored-fail2ban get_policy = is_ignored-differ "/api/fail2ban/policy" "" refl
  is_ignored-fail2ban (set_policy p) = is_ignored-differ "/api/fail2ban/policy" "" refl
  is_ignored-fail2ban Fail2banCall.get_config = is_ignored-differ "/api/fail2ban/config" "" refl
  is_ignored-fail2ban (set_config content) = is_ignored-differ "/api/fail2ban/config" "" refl

  some_path : {a b : Request} → some a ≡ some b → a ≡ b
  some_path h = cc

  is_ignored-request :
      (q : Call) (r : Request) → request encode q ≡ some r → is_ignored r.url ≡ is_session q
  is_ignored-request (auth q) r h = rw (sym (some_path h)) (is_ignored-auth q)
  is_ignored-request (users q) r h = rw (sym (some_path h)) (is_ignored-users q)
  is_ignored-request (groups q) r h = rw (sym (some_path h)) (is_ignored-groups q)
  is_ignored-request (pats q) r h = rw (sym (some_path h)) (is_ignored-pats q)
  is_ignored-request (pending q) r h = rw (sym (some_path h)) (is_ignored-pending q)
  is_ignored-request (mailboxes q) r h = rw (sym (some_path h)) (is_ignored-mailboxes q)
  is_ignored-request (fail2ban q) r h = rw (sym (some_path h)) (is_ignored-fail2ban q)
  is_ignored-request (routing q) r h = rw (sym (some_path h)) (is_ignored-routing encode q)
  is_ignored-request (filtering q) r h = rw (sym (some_path h)) (is_ignored-filtering encode q)
  is_ignored-request (runtime q) r h = rw (sym (some_path h)) (is_ignored-runtime encode q)
  is_ignored-request (navigate path) r h = cc
  is_ignored-request (clipboard t) r h = cc

  -- An answer of status 401 raises the flag for every request of the services but those that ask
  -- for the session itself, which never raise it, whatever ids, addresses and keys the path holds;
  -- the caller receives the failure.
  pub intercept-request :
      {A : Type 0} (q : Call) (r : Request) (detail : Option String) (expired : Bool)
      → request encode q ≡ some r
      → intercept {A = A} r.url (err (http 401 detail)) expired
        ≡ (expired || not (is_session q), err (http 401 detail))
  unfolding intercept
  intercept-request q r detail expired h = ground (arith, is_ignored-request q r h)
