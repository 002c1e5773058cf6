-- ===== src/Tests/Data.antt =====
-- A server that answers by the call alone, and pages for it.
use mailserver_ui.Common.{ℕ, zero, suc, ◌+◌, String, true, false, none, some, [], ◌∷◌}
use mailserver_ui.Async.{other, Result, ok, err, Server}
use mailserver_ui.Models.{
  guest, admin, local, SessionUser, User, GroupWithMembers, Pat, PatCreated, PendingAction, Mailbox,
}
use mailserver_ui.Api.{
  Call, Reply, auth, users, groups, pats, pending, mailboxes, navigate, clipboard, AuthCall, login,
  UsersCall, GroupsCall, get_members, PatsCall, revoke, dismiss, restart, MailboxesCall,
  list_aliases, get_sieve_script,
}
use mailserver_ui.Auth.{AuthState}
use mailserver_ui.Auth.Expiry.{Shell}
use mailserver_ui.Users.State as UsersPage
use mailserver_ui.Mailboxes.State as MailboxesPage
use mailserver_ui.Profile as ProfilePage
use mailserver_ui.Pending.{Bell}

abbrev pub ann : SessionUser
ann = record { username = "ann"; display_name = "Ann"; role = admin; provider = local }

abbrev pub account : ℕ → String → User
account id name = record {
  id = id;
  username = name;
  display_name = name;
  role = guest;
  effective_role = guest;
  provider = local;
  is_active = true;
  created_at = "2025-01-01";
  last_login_at = none;
}

abbrev pub staff : GroupWithMembers
staff = record {
  id = 1;
  name = "staff";
  description = "";
  role = guest;
  created_at = "2025-01-01";
  updated_at = "2025-01-01";
  member_count = 1;
}

abbrev pub token : Pat
token = record {
  id = 7;
  name = "ci";
  token_hint = "AbCd…Wx12";
  created_at = "2025-01-01";
  expires_at = none;
  last_used_at = none;
}

abbrev pub issued : PatCreated
issued = record {
  id = 7;
  name = "ci";
  token_hint = "AbCd…Wx12";
  created_at = "2025-01-01";
  expires_at = none;
  last_used_at = none;
  token = "pat_secret";
}

abbrev pub change : String → PendingAction
change key = record {
  id = 1;
  key = key;
  title = key;
  detail = "";
  created_at = "2025-01-01";
  updated_at = "2025-01-01";
}

abbrev pub box : String → Mailbox
box email = record { email = email; domain = "a.org"; quota = none }

abbrev pub answers : (q : Call) → Result (Reply q)
answers (auth AuthCall.me) = ok ann
answers (auth AuthCall.logout) = ok tt
answers (auth (login credentials)) = ok ann
answers (users UsersCall.list) = ok (account 1 "bob" ∷ [])
answers (users (UsersCall.create username display_name password)) = ok (account 1 "bob")
answers (users (UsersCall.delete id)) = ok tt
answers (groups GroupsCall.list) = ok (staff ∷ [])
answers (groups (GroupsCall.delete id)) = ok tt
answers (groups (get_members zero)) = ok (account 1 "bob" ∷ [])
answers (groups (get_members (suc n))) = ok (account 2 "eve" ∷ [])
answers (pats (PatsCall.create name days)) = ok issued
answers (pats (revoke id)) = ok tt
answers (pending (dismiss key)) = ok tt
answers (pending restart) = ok (record { items = []; count = 0 })
answers (mailboxes MailboxesCall.list) = ok (box "x@a.org" ∷ [])
answers (mailboxes (MailboxesCall.create email password quota)) = ok (box "x@a.org")
answers (mailboxes (MailboxesCall.delete email)) = ok tt
answers (mailboxes (list_aliases email)) = ok (record { alias = email } ∷ [])
answers (mailboxes (get_sieve_script email)) =
    ok (record { email = email; content = email; configured = true; restart_required = false })
answers (navigate path) = ok true
answers (clipboard text) = ok tt
answers q = err other

-- `World` counts the calls.
abbrev pub server : Server Call Reply
server = record {
  World = ℕ;
  reply = λ w q. answers q;
  after = λ w q. w + 1;
  first = λ w. true;
  tick = λ w. w;
}

-- Every call fails.
abbrev pub broken : Server Call Reply
broken = record {
  World = ℕ;
  reply = λ w q. err other;
  after = λ w q. w + 1;
  first = λ w. true;
  tick = λ w. w;
}

abbrev pub fresh : AuthState
fresh = record { user = none; config = none; loaded = false }

abbrev pub shell : Shell
shell = record { session = record fresh { user = some ann }; expired = true; signing_in = false }

abbrev pub users_page : UsersPage.Page
users_page = record {
  session = fresh;
  users = [];
  groups = [];
  loading = false;
  load_error = none;
  logging_out = false;
  show_user_form = true;
  creating_user = false;
  user_creation_error = none;
  deleting_user_id = none;
  toggling_user_id = none;
  user_model = record {
    username = "bob";
    display_name = "Bob";
    password = "longenough";
    confirm = "longenough";
  };
  active_tab = UsersPage.users_tab;
  saving_group = false;
  group_form_error = none;
  group_model = UsersPage.empty_group_model;
  show_group_form = false;
  edited_group_id = some 1;
  editing_group_id = none;
  selected_user_ids = [];
  adding_members = false;
  group_members = [];
  loading_members = false;
  members_error = none;
  removing_member_id = none;
  editing_id = some 1;
  saving = false;
  form_error = none;
  success_message = none;
  model = record { password = "short"; confirm = "short" };
}

abbrev pub mailboxes_page : MailboxesPage.Page
mailboxes_page = record {
  session = fresh;
  mailboxes = [];
  loading = false;
  load_error = none;
  logging_out = false;
  quotas_enabled = true;
  success_message = none;
  creating = false;
  create_error = none;
  create_model = record {
    email = "x@a.org";
    password = "longenough";
    confirm = "longenough";
    quota = "5G";
  };
  managing_email = none;
  saving = false;
  form_error = none;
  pw_model = MailboxesPage.empty_pw_model;
  quota_value = "5X";
  saving_quota = false;
  quota_error = none;
  aliases = [];
  aliases_loading = false;
  alias_error = none;
  adding_alias = false;
  removing_alias = none;
  alias_model = "";
  sieve_content = "";
  sieve_configured = false;
  sieve_loading = false;
  saving_sieve = false;
  removing_sieve = false;
  sieve_error = none;
  deleting_email = none;
}

abbrev pub profile_page : ProfilePage.Page
profile_page = record {
  profile = none;
  loading = false;
  load_error = none;
  saving = false;
  form_error = none;
  success_message = none;
  model = ProfilePage.empty_password_model;
  pats = token ∷ [];
  loading_pats = false;
  pats_error = none;
  show_pat_form = true;
  creating_pat = false;
  pat_form_error = none;
  revoking_pat_id = none;
  expires_in_days = some 30;
  new_pat = some issued;
  copied_secret = true;
  pat_name = " ci ";
}

abbrev pub bell : Bell
bell = record {
  items = change "dkim" ∷ change "relay" ∷ [];
  restarting = false;
  restart_error = none;
}
