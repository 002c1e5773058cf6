-- ===== src/Tests/Profile.antt =====
-- The profile page and the bell of pending changes.
use mailserver_ui.Common.{ℕ, String, Bool, true, false, none, ◌≡◌, refl, All, str_eq, trim}
use mailserver_ui.Async.{ok, run}
use mailserver_ui.Models.{PendingAction}
use mailserver_ui.Profile.{create_pat, revoke_pat}
use mailserver_ui.Profile.Flags.{IsIdle, creates_pat, profile_action, profile_action-IsIdle}
use mailserver_ui.Profile.Secrets.{shown, shown_after, create_pat_outcome, revoke_pat_hides}
use mailserver_ui.Tests.Data.{server, broken, token, issued, profile_page}
use mailserver_ui.Profile.Requests.{profile_action-sent}
use mailserver_ui.Async.Sent.{sent}
use mailserver_ui.Api.Sound.{IsSound}

abbrev any_number : String → ℕ
any_number t = 30

profile_action-IsIdle_example :
    ((run broken (profile_action any_number (creates_pat true)) profile_page 0).0 ≡ ok tt)
    × IsIdle (run broken (profile_action any_number (creates_pat true)) profile_page 0).1
profile_action-IsIdle_example =
    profile_action-IsIdle any_number broken profile_page 0 refl (creates_pat true)

create_pat_outcome_example :
    shown (run server (create_pat true) profile_page 0).1 ≡ shown_after profile_page (ok issued)
unfolding trim
create_pat_outcome_example = create_pat_outcome server profile_page 0 refl

revoke_pat_hides_example : (run server (revoke_pat true token) profile_page 0).1.new_pat ≡ none
revoke_pat_hides_example = revoke_pat_hides server profile_page 0 token

abbrev is_relay : PendingAction → Bool
is_relay item = str_eq item.key "relay"

not_relay : (item : PendingAction) → item.key ≡ "dkim" → is_relay item ≡ false
not_relay item e = rw e

profile_action-sent_example :
    All IsSound (sent server (profile_action any_number (creates_pat true)) profile_page 0)
profile_action-sent_example =
    profile_action-sent any_number server profile_page 0 (creates_pat true)
