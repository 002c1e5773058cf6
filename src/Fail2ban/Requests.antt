-- ===== src/Fail2ban/Requests.antt =====
-- The requests that the fail2ban page sends.
use mailserver_ui.Common.{
  Bool, true, false, none, some, Option, ℕ, String, ◌≡◌, refl, ◌⊎◌, inl, inr, arith, All,
}
use mailserver_ui.Async.{Server}
use mailserver_ui.Async.Sent.{sent, Asks, sent-Asks}
use mailserver_ui.Models.{Fail2banPolicyUpdateRequest}
use mailserver_ui.Api.{Call, Reply}
use mailserver_ui.Api.Sound.{IsSound, IsPolicy}
use mailserver_ui.Fail2ban.State.{Page, Tab, overview, policy, log, checked_policy}
use mailserver_ui.Fail2ban.Handlers.{
  on_ban, on_unban, on_save_policy, on_daemon_config, on_save_config, on_log_filter_input, set_tab,
  refresh_tab, load_tab, load_log, load_policy, load_status, save_checked,
}
use mailserver_ui.Fail2ban.Flags.{
  Action, bans, unbans, saves_policy, edits_config, saves_config, filters_log, opens_tab, refreshes,
  fail2ban_action,
}

-- The form is accepted exactly when it has three whole numbers, both durations are of at least a
-- minute and the retries are between 1 and 100; the request then carries these numbers.
pub checked_policy-inr :
    (bantime findtime maxretry : Option ℕ) (body : Fail2banPolicyUpdateRequest)
    → checked_policy bantime findtime maxretry ≡ inr body
    → IsPolicy body
unfolding checked_policy
checked_policy-inr (some b) (some f) (some m) body h = ground arith
checked_policy-inr none f m body h = ground arith
checked_policy-inr (some b) none m body h = ground arith
checked_policy-inr (some b) (some f) none body h = ground arith

save_checked-Asks :
    (c : String ⊎ Fail2banPolicyUpdateRequest)
    → ((body : Fail2banPolicyUpdateRequest) → c ≡ inr body → IsPolicy body)
    → Asks IsSound (save_checked c)
unfolding save_checked
save_checked-Asks (inl problem) h = λ _. tt
save_checked-Asks (inr body) h = ground (arith, h body refl)

on_save_policy-Asks : (valid : Bool) → Asks IsSound (on_save_policy valid)
unfolding on_save_policy
on_save_policy-Asks false = λ _. tt
on_save_policy-Asks true = λ _ s.
    let m = s.policy_model in
    save_checked-Asks (checked_policy m.bantime m.findtime m.maxretry)
      (checked_policy-inr m.bantime m.findtime m.maxretry)

load_tab-Asks : (t : Tab) → Asks IsSound (load_tab t)
unfolding load_tab load_log load_policy load_status
load_tab-Asks overview = ground arith
load_tab-Asks policy = ground arith
load_tab-Asks log = ground arith

fail2ban_action-Asks : (a : Action) → Asks IsSound (fail2ban_action a)
unfolding fail2ban_action on_ban on_unban on_daemon_config on_save_config on_log_filter_input
    set_tab refresh_tab
fail2ban_action-Asks (bans valid) = ground arith
fail2ban_action-Asks (unbans confirmed ip) = ground arith
fail2ban_action-Asks (saves_policy valid) = on_save_policy-Asks valid
fail2ban_action-Asks (edits_config value) = ground arith
fail2ban_action-Asks saves_config = ground arith
fail2ban_action-Asks (filters_log value) = ground arith
fail2ban_action-Asks (opens_tab overview) = ground arith
fail2ban_action-Asks (opens_tab policy) = ground arith
fail2ban_action-Asks (opens_tab log) = ground arith
fail2ban_action-Asks refreshes = λ s. load_tab-Asks s.active_tab

-- Whatever the user does on the fail2ban page, whatever its form holds and whatever the server
-- answers, a ban policy that is sent has a ban duration and a detection window of at least 60
-- seconds and between 1 and 100 retries.
pub fail2ban_action-sent :
    (srv : Server Call Reply) (s : Page) (w : srv.World) (a : Action)
    → All IsSound (sent srv (fail2ban_action a) s w)
fail2ban_action-sent srv s w a =
    sent-Asks IsSound srv (fail2ban_action a) (fail2ban_action-Asks a) s w
