-- ===== src/Models/Accounts.antt =====
-- Accounts, groups, sessions and access tokens: auth.models.ts, group.models.ts, pat.models.ts,
-- pending-action.models.ts.
use mailserver_ui.Common.{ℕ, String, Bool, Option, List}

-- `ROLES`, from least to most privileged.
pub data Role : Type 0 where
  guest mailbox_manager admin : Role

pub data AuthProvider : Type 0 where
  local oidc : AuthProvider

pub record SessionUser : Type 0 where
  pub username : String
  pub display_name : String
  pub role : Role
  pub provider : AuthProvider

pub record AuthConfig : Type 0 where
  pub local_enabled : Bool
  pub oidc_enabled : Bool
  pub pats_enabled : Bool

pub record LoginRequest : Type 0 where
  pub username : String
  pub password : String

pub record User : Type 0 where
  pub id : ℕ
  pub username : String
  pub display_name : String
  pub role : Role
  pub effective_role : Role
  pub provider : AuthProvider
  pub is_active : Bool
  pub created_at : String
  pub last_login_at : Option String

pub record Group : Type 0 where
  pub id : ℕ
  pub name : String
  pub description : String
  pub role : Role
  pub created_at : String
  pub updated_at : String

pub record GroupWithMembers : Type 0 where
  pub id : ℕ
  pub name : String
  pub description : String
  pub role : Role
  pub created_at : String
  pub updated_at : String
  pub member_count : ℕ

pub record Pat : Type 0 where
  pub id : ℕ
  pub name : String
  pub token_hint : String
  pub created_at : String
  pub expires_at : Option String
  pub last_used_at : Option String

pub record PatCreated : Type 0 where
  pub id : ℕ
  pub name : String
  pub token_hint : String
  pub created_at : String
  pub expires_at : Option String
  pub last_used_at : Option String
  pub token : String

pub record PendingAction : Type 0 where
  pub id : ℕ
  pub key : String
  pub title : String
  pub detail : String
  pub created_at : String
  pub updated_at : String

pub record PendingActionsSummary : Type 0 where
  pub items : List PendingAction
  pub count : ℕ
