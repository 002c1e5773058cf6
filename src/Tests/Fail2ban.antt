-- ===== src/Tests/Fail2ban.antt =====
-- The fail2ban page.
use mailserver_ui.Common.{String, true, Option, none, some, ◌≡◌, ◌↔◌, refl, All, Ordering, ℤ, List}
use mailserver_ui.Async.{ok, run}
use mailserver_ui.Async.Sent.{sent}
use mailserver_ui.Api.Sound.{IsSound}
use mailserver_ui.TableSort.{TableSort, asc}
use mailserver_ui.Fail2ban.Log.{LogFields, LogColumn, level, split_line}
use mailserver_ui.Fail2ban.Scan.{shape, run_of, span, literal, line_rest}
use mailserver_ui.Fail2ban.Log.Lines.{Gaps, IsLine, line_text, split_line_iff}
use mailserver_ui.Fail2ban.Flags.{
  IsIdle, saves_policy, bans, fail2ban_action, fail2ban_action-IsIdle,
}
use mailserver_ui.Fail2ban.Requests.{fail2ban_action-sent}
use mailserver_ui.Tests.Data.{server, broken}
use mailserver_ui.Tests.Pages.{fail2ban_page}

fail2ban_action-IsIdle_example :
    ((run broken (fail2ban_action (bans true)) fail2ban_page 0).0 ≡ ok tt)
    × IsIdle (run broken (fail2ban_action (bans true)) fail2ban_page 0).1
fail2ban_action-IsIdle_example = fail2ban_action-IsIdle broken fail2ban_page 0 refl (bans true)

fail2ban_action-sent_example :
    All IsSound (sent server (fail2ban_action (saves_policy true)) fail2ban_page 0)
fail2ban_action-sent_example = fail2ban_action-sent server fail2ban_page 0 (saves_policy true)

abbrev found : LogFields
found = record {
  timestamp = "2025-07-09 12:34:56,789";
  logger = "fail2ban.filter";
  pid = "143";
  level = "INFO";
  message = "[postfix] Found 203.0.113.42";
}

abbrev log_line : String
log_line = "2025-07-09 12:34:56,789 fail2ban.filter  [143]: INFO    [postfix] Found 203.0.113.42"

split_line-found : split_line log_line ≡ some (found, "")
unfolding split_line shape run_of span literal line_rest
split_line-found = refl

split_line_iff_example :
    (split_line log_line ≡ some (found, ""))
    ↔ ((g : Gaps) × IsLine found g × (log_line ≡ line_text found g))
split_line_iff_example = split_line_iff log_line found

abbrev level_with : String → String → Ordering
level_with a b = Ordering.eq

abbrev no_time : String → Option ℤ
no_time t = none

abbrev same_text : String → String
same_text t = t

abbrev by_level : TableSort LogColumn
by_level = record { column = some level; direction = asc }
