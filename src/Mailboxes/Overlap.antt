-- ===== src/Mailboxes/Overlap.antt =====
-- Panels opened faster than the server answers.
use mailserver_ui.Common.{false, none, some, List, [], ◌∷◌, ◌≡◌, arith, str_eq}
use mailserver_ui.Async.{Result, ok}
use mailserver_ui.Async.Pool.{Event, start, answer, run_schedule}
use mailserver_ui.Models.{Mailbox, Alias, MailboxSieveScript}
use mailserver_ui.Api.{Call, Reply, mailboxes, list_aliases, get_sieve_script}
use mailserver_ui.Mailboxes.State.{Page}
use mailserver_ui.Mailboxes.Handlers.{toggle_manage}

-- The panel of `a` is opened, then that of `b`; the answers for `b` arrive first.
abbrev pub late_panel : Mailbox → Mailbox → List (Event Page Call Reply)
late_panel a b =
    start (toggle_manage a)
    ∷ start (toggle_manage b)
    ∷ answer 1
    ∷ answer 1
    ∷ answer 1
    ∷ answer 0
    ∷ answer 0
    ∷ answer 0
    ∷ []

-- An answer that arrives late is shown under the wrong mailbox: with the panel of `b` open, the
-- page lists the aliases and the Sieve filter of `a`, whose panel was opened before.
pub late_panel_mix :
    (reply : (q : Call) → Result (Reply q)) (s : Page) (a b : Mailbox) (la lb : List Alias)
    (sa sb : MailboxSieveScript)
    → s.managing_email ≡ none
    → str_eq a.email b.email ≡ false
    → reply (mailboxes (list_aliases a.email)) ≡ ok la
    → reply (mailboxes (list_aliases b.email)) ≡ ok lb
    → reply (mailboxes (get_sieve_script a.email)) ≡ ok sa
    → reply (mailboxes (get_sieve_script b.email)) ≡ ok sb
    → let s' = (run_schedule reply (late_panel a b) [] s).0 in
      (s'.managing_email ≡ some b.email) × (s'.aliases ≡ la) × (s'.sieve_content ≡ sa.content)
unfolding run_schedule toggle_manage
late_panel_mix reply s a b la lb sa sb closed differ p q r t = ground arith
