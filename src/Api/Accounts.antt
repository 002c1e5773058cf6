-- ===== src/Api/Accounts.antt =====
-- auth.service.ts, users.service.ts, groups.service.ts, pats.service.ts, pending-actions.service.ts.
use mailserver_ui.Common.{ℕ, String, Bool, Option, List}
use mailserver_ui.Models.{
  Role, SessionUser, AuthConfig, LoginRequest, User, Group, GroupWithMembers, Pat, PatCreated,
  PendingActionsSummary,
}

pub data AuthCall : Type 0 where
  get_config me logout : AuthCall
  login : LoginRequest → AuthCall

abbrev pub AuthReply : AuthCall → Type 0
AuthReply get_config = AuthConfig
AuthReply me = SessionUser
AuthReply logout = Unit
AuthReply (login credentials) = SessionUser

pub data UsersCall : Type 0 where
  me : UsersCall
  change_own_password : String → String → UsersCall
  list : UsersCall
  create : String → String → String → UsersCall
  delete : ℕ → UsersCall
  change_password : ℕ → String → UsersCall
  set_active : ℕ → Bool → UsersCall

abbrev pub UsersReply : UsersCall → Type 0
UsersReply UsersCall.me = User
UsersReply (change_own_password current new) = User
UsersReply UsersCall.list = List User
UsersReply (UsersCall.create username display_name password) = User
UsersReply (UsersCall.delete id) = Unit
UsersReply (change_password id new) = User
UsersReply (set_active id active) = User

pub data GroupsCall : Type 0 where
  list : GroupsCall
  create : String → String → Role → GroupsCall
  update : ℕ → String → String → Role → GroupsCall
  delete : ℕ → GroupsCall
  get_members : ℕ → GroupsCall
  add_member : ℕ → ℕ → GroupsCall
  remove_member : ℕ → ℕ → GroupsCall
  add_members : ℕ → List ℕ → GroupsCall

abbrev pub GroupsReply : GroupsCall → Type 0
GroupsReply GroupsCall.list = List GroupWithMembers
GroupsReply (GroupsCall.create name description role) = Group
GroupsReply (update id name description role) = Group
GroupsReply (GroupsCall.delete id) = Unit
GroupsReply (get_members id) = List User
GroupsReply (add_member id user) = Unit
GroupsReply (remove_member id user) = Unit
GroupsReply (add_members id users) = Unit

pub data PatsCall : Type 0 where
  list : PatsCall
  create : String → Option ℕ → PatsCall
  revoke : ℕ → PatsCall

abbrev pub PatsReply : PatsCall → Type 0
PatsReply PatsCall.list = List Pat
PatsReply (PatsCall.create name expires_in_days) = PatCreated
PatsReply (revoke id) = Unit

pub data PendingCall : Type 0 where
  refresh : PendingCall
  dismiss : String → PendingCall
  dismiss_all : PendingCall
  restart : PendingCall

abbrev pub PendingReply : PendingCall → Type 0
PendingReply refresh = PendingActionsSummary
PendingReply (dismiss key) = Unit
PendingReply dismiss_all = Unit
PendingReply restart = PendingActionsSummary
