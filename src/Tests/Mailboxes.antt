-- ===== src/Tests/Mailboxes.antt =====
-- The mailboxes page.
use mailserver_ui.Common.{String, true, false, some, List, [], ◌∷◌, ◌≡◌, ◌↔◌, refl}
use mailserver_ui.Async.{ok, run}
use mailserver_ui.Async.Pool.{run_schedule}
use mailserver_ui.Models.{Alias, MailboxSieveScript}
use mailserver_ui.Mailboxes.State.{Page, is_quota}
use mailserver_ui.Mailboxes.Quota.{QuotaFormat, is_quota_iff}
use mailserver_ui.Mailboxes.Flags.{
  IsIdle, creates, deletes, mailboxes_action, mailboxes_action-IsIdle,
}
use mailserver_ui.Mailboxes.Overlap.{late_panel, late_panel_mix}
use mailserver_ui.Common.{All}
use mailserver_ui.Tests.Data.{server, broken, answers, box, mailboxes_page}
use mailserver_ui.Mailboxes.Requests.{mailboxes_action-sent}
use mailserver_ui.Async.Sent.{sent}
use mailserver_ui.Api.Sound.{IsSound}

abbrev same_text : String → String
same_text t = t

abbrev managing : Page
managing = record mailboxes_page { managing_email = some "x@a.org" }

abbrev unconfirmed : Page
unconfirmed = record mailboxes_page {
  create_model = record { email = "x@a.org"; password = "longenough"; confirm = ""; quota = "" };
}

is_quota_iff_example : (is_quota "5G" ≡ true) ↔ QuotaFormat "5G"
is_quota_iff_example = is_quota_iff "5G"

mailboxes_action-IsIdle_example :
    ((run broken (mailboxes_action same_text same_text (deletes true (box "x@a.org"))) managing 0).0
      ≡ ok tt)
    × IsIdle
        (run broken
          (mailboxes_action same_text same_text (deletes true (box "x@a.org")))
          managing
          0).1
mailboxes_action-IsIdle_example =
    mailboxes_action-IsIdle same_text same_text broken managing 0 refl
      (deletes true (box "x@a.org"))

abbrev x_aliases : List Alias
x_aliases = record { alias = "x@a.org" } ∷ []

abbrev script_of : String → MailboxSieveScript
script_of email = record {
  email = email;
  content = email;
  configured = true;
  restart_required = false;
}

late_panel_mix_example :
    let s' =
      (run_schedule answers (late_panel (box "x@a.org") (box "y@a.org")) [] mailboxes_page).0 in
    (s'.managing_email ≡ some "y@a.org") × (s'.aliases ≡ x_aliases) × (s'.sieve_content ≡ "x@a.org")
late_panel_mix_example =
    late_panel_mix answers mailboxes_page (box "x@a.org") (box "y@a.org") x_aliases
      (record { alias = "y@a.org" } ∷ []) (script_of "x@a.org") (script_of "y@a.org") refl refl refl
      refl refl refl

mailboxes_action-sent_example :
    All IsSound (sent server (mailboxes_action same_text same_text (creates true)) mailboxes_page 0)
mailboxes_action-sent_example =
    mailboxes_action-sent same_text same_text server mailboxes_page 0 (creates true)
