-- ===== src/Models/Mailserver.antt =====
-- The configuration of the mail server: mailserver.models.ts.
use mailserver_ui.Common.{ℕ, String, Bool, Option, List}

pub data KeySize : Type 0 where
  size_1024 size_2048 size_4096 : KeySize

pub data RestrictionKind : Type 0 where
  send receive : RestrictionKind

pub data SieveScope : Type 0 where
  before after : SieveScope

pub data SpamConfigScope : Type 0 where
  rules whitelist_clients whitelist_recipients amavis : SpamConfigScope

pub data RspamdCommandKind : Type 0 where
  set_common_option set_option_for_controller set_option_for_proxy : RspamdCommandKind
  enable_module disable_module set_option_for_module add_line : RspamdCommandKind

pub data LdapScope : Type 0 where
  users groups aliases domains : LdapScope

pub record RelayHost : Type 0 where
  pub sender : String
  pub host : String
  pub port : ℕ
  pub username : Option String
  pub has_credentials : Bool

pub record RelayHostCreateRequest : Type 0 where
  pub sender : String
  pub host : String
  pub port : ℕ
  pub username : Option String
  pub password : Option String

pub record RelayExclusion : Type 0 where
  pub sender : String

pub record PostfixOverride : Type 0 where
  pub key : String
  pub value : String

pub record PostfixMasterOverride : Type 0 where
  pub key : String
  pub value : String

pub record DovecotConfig : Type 0 where
  pub content : String
  pub restart_required : Bool

pub record SystemAlias : Type 0 where
  pub name : String
  pub targets : List String

pub record RegexAlias : Type 0 where
  pub pattern : String
  pub targets : List String

pub record DkimKey : Type 0 where
  pub domain : String
  pub selector : String
  pub record_name : String
  pub public_key : String
  pub txt_value : String

pub record DkimGenerateRequest : Type 0 where
  pub domain : Option String
  pub selector : String
  pub key_size : KeySize

pub record DkimMigrationStatus : Type 0 where
  pub candidates : List String

pub record DkimMigrationResult : Type 0 where
  pub keys : List DkimKey
  pub migrated_domains : List String
  pub restart_required : Bool

pub record Restriction : Type 0 where
  pub kind : RestrictionKind
  pub address : String

pub record DovecotMaster : Type 0 where
  pub name : String

pub record DovecotMasterCreateRequest : Type 0 where
  pub name : String
  pub password : String

pub record SieveScript : Type 0 where
  pub scope : SieveScope
  pub content : String
  pub restart_required : Bool

pub record SpamConfig : Type 0 where
  pub scope : SpamConfigScope
  pub content : String
  pub feature : String
  pub feature_enabled : Bool
  pub restart_required : Bool

pub record RspamdCommand : Type 0 where
  pub kind : RspamdCommandKind
  pub target : String
  pub option : String
  pub value : String

pub record RspamdOverrideFile : Type 0 where
  pub name : String
  pub content : String

pub record RspamdOverrides : Type 0 where
  pub commands : List RspamdCommand
  pub rspamd_enabled : Bool
  pub restart_required : Bool
  pub override_files : List RspamdOverrideFile

pub record LdapConfig : Type 0 where
  pub scope : LdapScope
  pub content : String
  pub configured : Bool
  pub provisioner : String
  pub ldap_enabled : Bool
  pub overridden_keys : List String
  pub restart_required : Bool
