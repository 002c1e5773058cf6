-- ===== src/Profile/Flags.antt =====
-- Every handler of the page ends with its spinner off and traps its failures.
use mailserver_ui.Common.{ℕ, String, Bool, false, Option, none, ◌≡◌, arith}
use mailserver_ui.Async.{ok, Server, run}
use mailserver_ui.Models.{Pat}
use mailserver_ui.Api.{Call, Reply}
use mailserver_ui.Profile.{
  Page, PageTask, load_profile, load_pats, on_expiry_change, start_create_pat, cancel_create_pat,
  create_pat, revoke_pat, copy_secret, dismiss_new_pat, on_submit,
}

-- What happens on the page: its start, and what the user does.
pub data Action : Type 0 where
  opens_profile opens_pats : Action
  chooses_expiry : String → Action
  starts_pat cancels_pat : Action
  creates_pat : Bool → Action
  revokes_pat : Bool → Pat → Action
  copies_secret dismisses_pat : Action
  submits_password : Bool → Action

pub record Spinners : Type 0 where
  pub loading : Bool
  pub saving : Bool
  pub loading_pats : Bool
  pub creating_pat : Bool
  pub revoking_pat_id : Option ℕ

-- No operation is in progress.
abbrev pub IsIdle : Page → Type 0
IsIdle s =
    ◌≡◌ {A = Spinners}
      (record {
        loading = s.loading;
        saving = s.saving;
        loading_pats = s.loading_pats;
        creating_pat = s.creating_pat;
        revoking_pat_id = s.revoking_pat_id;
      })
      (record {
        loading = false;
        saving = false;
        loading_pats = false;
        creating_pat = false;
        revoking_pat_id = none;
      })

module _ (number : String → ℕ) where
  unfoldable pub profile_action : Action → PageTask
  profile_action opens_profile = load_profile
  profile_action opens_pats = load_pats
  profile_action (chooses_expiry raw) = on_expiry_change number raw
  profile_action starts_pat = start_create_pat
  profile_action cancels_pat = cancel_create_pat
  profile_action (creates_pat valid) = create_pat valid
  profile_action (revokes_pat confirmed p) = revoke_pat confirmed p
  profile_action copies_secret = copy_secret
  profile_action dismisses_pat = dismiss_new_pat
  profile_action (submits_password valid) = on_submit valid

  -- Whatever happens on an idle page and whatever the server or the clipboard answers, the handler
  -- runs to its end, lets no failure escape, and leaves every spinner off.
  pub profile_action-IsIdle :
      (srv : Server Call Reply) (s : Page) (w : srv.World)
      → IsIdle s
      → (a : Action)
      → ((run srv (profile_action a) s w).0 ≡ ok tt) × IsIdle (run srv (profile_action a) s w).1
  unfolding run profile_action load_profile load_pats on_expiry_change start_create_pat
      cancel_create_pat create_pat revoke_pat copy_secret dismiss_new_pat on_submit
  profile_action-IsIdle srv s w idle opens_profile = ground arith
  profile_action-IsIdle srv s w idle a = ground arith
