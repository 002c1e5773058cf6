-- ===== src/Fail2ban/Handlers.antt =====
-- The handlers of the fail2ban page.
use mailserver_ui.Common.{
  String, Bool, true, false, none, some, ◌⊎◌, inl, inr, if◌then◌else◌, ◌+++◌, trim,
}
use mailserver_ui.Async.{
  ◌>>=◌, ◌>>◌, try_catch, try_finally, await, await_both, modify, read, skip, zoom,
}
use mailserver_ui.Api.{
  fail2ban, get_status, ban_ip, unban_ip, get_policy, set_policy, Fail2banCall, set_config, get_log,
  navigate,
}
use mailserver_ui.Models.{Fail2banPolicyUpdateRequest}
use mailserver_ui.Auth.{logout}
use mailserver_ui.Fail2ban.State.{Tab, overview, policy, log, PageTask, message_for, checked_policy}

unfoldable pub load_status : PageTask
load_status = do
  modify (λ s. record s { status_loading = true; status_error = none })
  try_finally
      (try_catch
        (do
          status ← await (fail2ban get_status)
          modify
              (λ s. record s { jails = status.jails; fail2ban_enabled = status.fail2ban_enabled }))
        (λ err. modify (λ s. record s { status_error = some (message_for err) })))
      (modify (λ s. record s { status_loading = false }))

unfoldable pub on_ban : Bool → PageTask
unfolding load_status
on_ban valid = do
  modify (λ s. record s { action_error = none; action_success = none })
  if valid
      then (do
        s ← read
        let ip = trim s.ban_ip
        modify (λ s. record s { banning = true })
        try_finally
            (try_catch
              (do
                _ ← await (fail2ban (ban_ip ip))
                modify (λ s. record s {
                  action_success = some ("IP " +++ ip +++ " banned.");
                  ban_ip = "";
                })
                load_status)
              (λ err. modify (λ s. record s { action_error = some (message_for err) })))
            (modify (λ s. record s { banning = false })))
      else skip

unfoldable pub on_unban : Bool → String → PageTask
unfolding load_status
on_unban confirmed ip =
    if confirmed
    then (do
      modify (λ s. record s { action_error = none; action_success = none; unbanning_ip = some ip })
      try_finally
          (try_catch
            (do
              _ ← await (fail2ban (unban_ip ip))
              modify (λ s. record s { action_success = some ("IP " +++ ip +++ " unbanned.") })
              load_status)
            (λ err. modify (λ s. record s { action_error = some (message_for err) })))
          (modify (λ s. record s { unbanning_ip = none })))
    else skip

unfoldable pub load_policy : PageTask
load_policy = do
  modify (λ s. record s { policy_loading = true; policy_error = none })
  try_finally
      (try_catch
        (do
          (found, config) ← await_both (fail2ban get_policy) (fail2ban Fail2banCall.get_config)
          modify (λ s. record s {
            policy_model = record {
              bantime = some found.bantime;
              findtime = some found.findtime;
              maxretry = some found.maxretry;
            };
            policy_configured = found.configured;
            daemon_config = config.content;
            policy_loaded = true;
          }))
        (λ err. modify (λ s. record s { policy_error = some (message_for err) })))
      (modify (λ s. record s { policy_loading = false }))

-- What follows the tests of `onSavePolicy`.
unfoldable pub save_checked : String ⊎ Fail2banPolicyUpdateRequest → PageTask
save_checked (inl problem) = modify (λ s. record s { policy_error = some problem })
save_checked (inr body) = do
  modify (λ s. record s { saving_policy = true })
  try_finally
      (try_catch
        (do
          saved ← await (fail2ban (set_policy body))
          modify (λ s. record s {
            policy_configured = saved.configured;
            policy_success = some "Policy saved. Restart the mailserver to apply it.";
          }))
        (λ err. modify (λ s. record s { policy_error = some (message_for err) })))
      (modify (λ s. record s { saving_policy = false }))

unfoldable pub on_save_policy : Bool → PageTask
on_save_policy valid = do
  modify (λ s. record s { policy_error = none; policy_success = none })
  if valid
      then (do
        s ← read
        let m = s.policy_model
        save_checked (checked_policy m.bantime m.findtime m.maxretry))
      else skip

unfoldable pub on_daemon_config : String → PageTask
on_daemon_config value = modify (λ s. record s { daemon_config = value })

unfoldable pub on_save_config : PageTask
on_save_config = do
  modify (λ s. record s { policy_error = none; policy_success = none; saving_config = true })
  try_finally
      (try_catch
        (do
          s ← read
          config ← await (fail2ban (set_config s.daemon_config))
          modify (λ s. record s {
            daemon_config = config.content;
            policy_success = some "Daemon configuration saved. Restart the mailserver to apply it.";
          }))
        (λ err. modify (λ s. record s { policy_error = some (message_for err) })))
      (modify (λ s. record s { saving_config = false }))

unfoldable pub load_log : PageTask
load_log = do
  modify (λ s. record s { log_loading = true; log_error = none })
  try_finally
      (try_catch
        (do
          lines ← await (fail2ban get_log)
          modify (λ s. record s { log_lines = lines; log_loaded = true }))
        (λ err. modify (λ s. record s { log_error = some (message_for err) })))
      (modify (λ s. record s { log_loading = false }))

unfoldable pub on_log_filter_input : String → PageTask
on_log_filter_input value = modify (λ s. record s { log_filter = value })

-- The load that a tab wants is started, not awaited: it is the last thing the handler does.
unfoldable pub set_tab : Tab → PageTask
unfolding load_log load_policy
set_tab log = do
  modify (λ s. record s { active_tab = log })
  s ← read
  if s.log_loaded then skip else load_log
set_tab policy = do
  modify (λ s. record s { active_tab = policy })
  s ← read
  if s.policy_loaded then skip else load_policy
set_tab overview = modify (λ s. record s { active_tab = overview })

unfoldable pub load_tab : Tab → PageTask
unfolding load_log load_policy load_status
load_tab log = load_log
load_tab policy = load_policy
load_tab overview = load_status

unfoldable pub refresh_tab : PageTask
refresh_tab = do s ← read; load_tab s.active_tab

unfoldable pub on_logout : PageTask
unfolding logout
on_logout = do
  modify (λ s. record s { logging_out = true })
  try_finally
      (do
        zoom (λ s. s.session) (λ a s. record s { session = a }) logout
        _ ← await (navigate "/login")
        skip)
      (modify (λ s. record s { logging_out = false }))
