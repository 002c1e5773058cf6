-- ===== src/Fail2ban/Flags.antt =====
-- Every handler of the fail2ban page but the sign-out ends with its spinner off.
use mailserver_ui.Common.{String, Bool, true, false, Option, none, ◌≡◌, refl, ◌⊎◌, inl, inr, arith}
use mailserver_ui.Async.{ok, Server, run}
use mailserver_ui.Api.{Call, Reply}
use mailserver_ui.Fail2ban.State.{Tab, overview, policy, log, Page, PageTask, checked_policy}
use mailserver_ui.Models.{Fail2banPolicyUpdateRequest}
use mailserver_ui.Fail2ban.Handlers.{
  on_ban, on_unban, on_save_policy, on_daemon_config, on_save_config, on_log_filter_input, set_tab,
  refresh_tab, load_tab, load_log, load_policy, load_status, save_checked,
}

-- What the user can do on the page.
pub data Action : Type 0 where
  bans : Bool → Action
  unbans : Bool → String → Action
  saves_policy : Bool → Action
  edits_config : String → Action
  saves_config : Action
  filters_log : String → Action
  opens_tab : Tab → Action
  refreshes : Action

unfoldable pub fail2ban_action : Action → PageTask
fail2ban_action (bans valid) = on_ban valid
fail2ban_action (unbans confirmed ip) = on_unban confirmed ip
fail2ban_action (saves_policy valid) = on_save_policy valid
fail2ban_action (edits_config value) = on_daemon_config value
fail2ban_action saves_config = on_save_config
fail2ban_action (filters_log value) = on_log_filter_input value
fail2ban_action (opens_tab tab) = set_tab tab
fail2ban_action refreshes = refresh_tab

pub record Spinners : Type 0 where
  pub status_loading : Bool
  pub banning : Bool
  pub unbanning_ip : Option String
  pub policy_loading : Bool
  pub saving_policy : Bool
  pub saving_config : Bool
  pub log_loading : Bool

-- No operation is in progress.
abbrev pub IsIdle : Page → Type 0
IsIdle s =
    ◌≡◌ {A = Spinners}
      (record {
        status_loading = s.status_loading;
        banning = s.banning;
        unbanning_ip = s.unbanning_ip;
        policy_loading = s.policy_loading;
        saving_policy = s.saving_policy;
        saving_config = s.saving_config;
        log_loading = s.log_loading;
      })
      (record {
        status_loading = false;
        banning = false;
        unbanning_ip = none;
        policy_loading = false;
        saving_policy = false;
        saving_config = false;
        log_loading = false;
      })

save_checked-IsIdle :
    (srv : Server Call Reply) (s : Page) (w : srv.World)
    → IsIdle s
    → (c : String ⊎ Fail2banPolicyUpdateRequest)
    → ((run srv (save_checked c) s w).0 ≡ ok tt) × IsIdle (run srv (save_checked c) s w).1
unfolding run save_checked
save_checked-IsIdle srv s w idle (inl problem) = ground arith
save_checked-IsIdle srv s w idle (inr body) = ground arith

module _ (srv : Server Call Reply) (s : Page) (w : srv.World) (idle : IsIdle s) where
  load_tab-IsIdle :
      (t : Tab) → ((run srv (load_tab t) s w).0 ≡ ok tt) × IsIdle (run srv (load_tab t) s w).1
  unfolding run load_tab load_log load_policy load_status
  load_tab-IsIdle overview = ground arith
  load_tab-IsIdle policy = ground arith
  load_tab-IsIdle log = ground arith

  on_save_policy-IsIdle :
      (valid : Bool)
      → ((run srv (on_save_policy valid) s w).0 ≡ ok tt)
        × IsIdle (run srv (on_save_policy valid) s w).1
  unfolding run on_save_policy
  on_save_policy-IsIdle true =
      save_checked-IsIdle srv (record s { policy_error = none; policy_success = none }) w idle
        (checked_policy s.policy_model.bantime s.policy_model.findtime s.policy_model.maxretry)
  on_save_policy-IsIdle false = (refl, idle)

  refresh_tab-IsIdle : ((run srv refresh_tab s w).0 ≡ ok tt) × IsIdle (run srv refresh_tab s w).1
  unfolding run refresh_tab
  refresh_tab-IsIdle = load_tab-IsIdle s.active_tab

  -- Whatever the user does on an idle page and whatever the server answers, in whichever order, the
  -- handler runs to its end, lets no failure escape, and leaves every spinner off.
  pub fail2ban_action-IsIdle :
      (a : Action)
      → ((run srv (fail2ban_action a) s w).0 ≡ ok tt) × IsIdle (run srv (fail2ban_action a) s w).1
  unfolding run fail2ban_action on_ban on_unban on_daemon_config on_save_config on_log_filter_input
      set_tab
  fail2ban_action-IsIdle (saves_policy valid) = on_save_policy-IsIdle valid
  fail2ban_action-IsIdle (bans true) = ground arith
  fail2ban_action-IsIdle (bans false) = ground arith
  fail2ban_action-IsIdle (opens_tab overview) = ground arith
  fail2ban_action-IsIdle (opens_tab policy) = ground arith
  fail2ban_action-IsIdle (opens_tab log) = ground arith
  fail2ban_action-IsIdle refreshes = refresh_tab-IsIdle
  fail2ban_action-IsIdle a = ground arith
