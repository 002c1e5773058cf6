-- ===== src/Mailboxes/Flags.antt =====
-- Every handler of the page, whatever the server answers and in whichever order, ends with its
-- spinner off, and each but the sign-out traps its failures.
use mailserver_ui.Common.{String, Bool, false, Option, none, ◌≡◌, arith}
use mailserver_ui.Async.{Result, ok, Server, run}
use mailserver_ui.Models.{Mailbox}
use mailserver_ui.Api.{Call, Reply}
use mailserver_ui.Mailboxes.State.{Page, PageTask}
use mailserver_ui.Mailboxes.Handlers.{
  on_create, toggle_manage, on_reset_password, on_save_quota, on_add_alias, on_remove_alias,
  on_save_sieve, on_remove_sieve, on_delete, on_logout, load_mailboxes, load_features,
  on_sieve_input, on_quota_input,
}

-- What the user can do on the page.
pub data Action : Type 0 where
  creates : Bool → Action
  manages : Mailbox → Action
  resets_password : Bool → Action
  saves_quota : Action
  adds_alias : Bool → Action
  removes_alias : String → Action
  saves_sieve : Action
  removes_sieve : Bool → Action
  deletes : Bool → Mailbox → Action
  types_sieve types_quota : String → Action
  opens_mailboxes opens_features logs_out : Action

pub record Spinners : Type 0 where
  pub loading : Bool
  pub creating : Bool
  pub saving : Bool
  pub saving_quota : Bool
  pub aliases_loading : Bool
  pub adding_alias : Bool
  pub removing_alias : Option String
  pub sieve_loading : Bool
  pub saving_sieve : Bool
  pub removing_sieve : Bool
  pub deleting_email : Option String
  pub logging_out : Bool

-- No operation is in progress.
abbrev pub IsIdle : Page → Type 0
IsIdle s =
    ◌≡◌ {A = Spinners}
      (record {
        loading = s.loading;
        creating = s.creating;
        saving = s.saving;
        saving_quota = s.saving_quota;
        aliases_loading = s.aliases_loading;
        adding_alias = s.adding_alias;
        removing_alias = s.removing_alias;
        sieve_loading = s.sieve_loading;
        saving_sieve = s.saving_sieve;
        removing_sieve = s.removing_sieve;
        deleting_email = s.deleting_email;
        logging_out = s.logging_out;
      })
      (record {
        loading = false;
        creating = false;
        saving = false;
        saving_quota = false;
        aliases_loading = false;
        adding_alias = false;
        removing_alias = none;
        sieve_loading = false;
        saving_sieve = false;
        removing_sieve = false;
        deleting_email = none;
        logging_out = false;
      })

-- How a handler ends: a sign-out with no user in the session, whether it fails or not; every other
-- one without a failure.
abbrev pub IsEnded : Action → Result (Unit {0}) → Page → Type 0
IsEnded logs_out r s = s.session.user ≡ none
IsEnded a r s = r ≡ ok tt

module _ (upper lower : String → String) where
  unfoldable pub mailboxes_action : Action → PageTask
  mailboxes_action (creates valid) = on_create upper lower valid
  mailboxes_action (manages m) = toggle_manage m
  mailboxes_action (resets_password valid) = on_reset_password valid
  mailboxes_action saves_quota = on_save_quota upper
  mailboxes_action (adds_alias valid) = on_add_alias lower valid
  mailboxes_action (removes_alias a) = on_remove_alias a
  mailboxes_action saves_sieve = on_save_sieve
  mailboxes_action (removes_sieve confirmed) = on_remove_sieve confirmed
  mailboxes_action (deletes confirmed m) = on_delete confirmed m
  mailboxes_action (types_sieve value) = on_sieve_input value
  mailboxes_action (types_quota value) = on_quota_input value
  mailboxes_action opens_mailboxes = load_mailboxes
  mailboxes_action opens_features = load_features
  mailboxes_action logs_out = on_logout

  module _ (srv : Server Call Reply) (s : Page) (w : srv.World) (idle : IsIdle s) where
    manages-ok : (m : Mailbox) → (run srv (toggle_manage m) s w).0 ≡ ok tt
    unfolding run toggle_manage
    manages-ok m = ground arith

    manages-IsIdle : (m : Mailbox) → IsIdle (run srv (toggle_manage m) s w).1
    unfolding run toggle_manage
    manages-IsIdle m = ground arith

    logs_out-user : (run srv on_logout s w).1.session.user ≡ none
    unfolding run on_logout
    logs_out-user = ground arith

    logs_out-IsIdle : IsIdle (run srv on_logout s w).1
    unfolding run on_logout
    logs_out-IsIdle = ground arith

    -- Whatever happens on an idle page and whatever the server answers, in whichever order, the
    -- handler leaves every spinner off. A sign-out leaves no user in the session, even where it
    -- fails; every other handler lets no failure escape.
    pub mailboxes_action-IsIdle :
        (a : Action)
        → IsEnded a (run srv (mailboxes_action a) s w).0 (run srv (mailboxes_action a) s w).1
          × IsIdle (run srv (mailboxes_action a) s w).1
    unfolding run mailboxes_action on_create on_reset_password on_save_quota on_add_alias
        on_remove_alias on_save_sieve on_remove_sieve on_delete load_mailboxes load_features
        on_sieve_input on_quota_input
    mailboxes_action-IsIdle (creates valid) = ground arith
    mailboxes_action-IsIdle (manages m) = (manages-ok m, manages-IsIdle m)
    mailboxes_action-IsIdle (resets_password valid) = ground arith
    mailboxes_action-IsIdle saves_quota = ground arith
    mailboxes_action-IsIdle (adds_alias valid) = ground arith
    mailboxes_action-IsIdle (removes_alias a) = ground arith
    mailboxes_action-IsIdle saves_sieve = ground arith
    mailboxes_action-IsIdle (removes_sieve confirmed) = ground arith
    mailboxes_action-IsIdle (deletes confirmed m) = ground arith
    mailboxes_action-IsIdle (types_sieve value) = ground arith
    mailboxes_action-IsIdle (types_quota value) = ground arith
    mailboxes_action-IsIdle opens_mailboxes = ground arith
    mailboxes_action-IsIdle opens_features = ground arith
    mailboxes_action-IsIdle logs_out = (logs_out-user, logs_out-IsIdle)
