-- ===== src/Dashboard/Keeps.antt =====
-- The load of a tile leaves the other tiles alone.
use mailserver_ui.Common.{true, false, List}
use mailserver_ui.Async.{ok, err, await, Server}
use mailserver_ui.Async.Parallel.Laws.{KeepsAlways}
use mailserver_ui.Models.{
  Mailbox, MailboxUsageSummary, QueueSummary, Fail2banStatus, TlsCertificate, DkimKey,
  ServiceStatus, MailStats, MailserverEnvironment,
}
use mailserver_ui.Api.{
  Call, Reply, filtering, runtime, MailboxesCall, get_status, get_queue, get_tls_certificate,
  list_dkim_keys, list_services, get_mail_stats, get_environment,
}
use mailserver_ui.Dashboard.{
  Tile, Page, AccountsOverview, fetch_accounts, load_mailboxes, load_usage, load_queue,
  load_fail2ban, load_tls, load_dkim, load_services, load_stats, load_environment, load_accounts,
}
use mailserver_ui.Dashboard.Tiles.{IsQuiet, load_tile-Keeps}

-- What the tiles of a list keep, one after the other.
infixr 20 ◌▸◌
abbrev pub ◌▸◌ : {A B : Type 0} → A → B → A × B
a ▸ b = (a, b)

await-IsQuiet : (q : Call) → IsQuiet (await q)
await-IsQuiet q = elim [ ok a ↦ tt | err e ↦ tt ]

accounts-IsQuiet : IsQuiet fetch_accounts
unfolding fetch_accounts
accounts-IsQuiet = elim [
  | true ↦ elim [ ok a ↦ elim [ ok b ↦ tt | err e ↦ tt ] | err e ↦ λ _. tt ]
  | false ↦ elim [ ok b ↦ elim [ ok a ↦ tt | err e ↦ tt ] | err e ↦ λ _. tt ]
]

module _ (srv : Server Call Reply) where
  module _ (P : Page → Type 0) where
    pub mailboxes_keep :
        ((t : Tile (List Mailbox)) (s : Page) → P s → P (record s { mailboxes = t }))
        → KeepsAlways srv P load_mailboxes
    mailboxes_keep keep =
        load_tile-Keeps srv P (λ t s. record s { mailboxes = t })
          (await (Call.mailboxes MailboxesCall.list))
          (await-IsQuiet (Call.mailboxes MailboxesCall.list)) keep

    pub usage_keep :
        ((t : Tile MailboxUsageSummary) (s : Page) → P s → P (record s { usage = t }))
        → KeepsAlways srv P load_usage
    usage_keep keep =
        load_tile-Keeps srv P (λ t s. record s { usage = t })
          (await (Call.mailboxes MailboxesCall.usage))
          (await-IsQuiet (Call.mailboxes MailboxesCall.usage)) keep

    pub queue_keep :
        ((t : Tile QueueSummary) (s : Page) → P s → P (record s { queue = t }))
        → KeepsAlways srv P load_queue
    queue_keep keep =
        load_tile-Keeps srv P (λ t s. record s { queue = t }) (await (runtime get_queue))
          (await-IsQuiet (runtime get_queue)) keep

    pub fail2ban_keep :
        ((t : Tile Fail2banStatus) (s : Page) → P s → P (record s { fail2ban = t }))
        → KeepsAlways srv P load_fail2ban
    fail2ban_keep keep =
        load_tile-Keeps srv P (λ t s. record s { fail2ban = t }) (await (Call.fail2ban get_status))
          (await-IsQuiet (Call.fail2ban get_status)) keep

    pub tls_keep :
        ((t : Tile TlsCertificate) (s : Page) → P s → P (record s { tls = t }))
        → KeepsAlways srv P load_tls
    tls_keep keep =
        load_tile-Keeps srv P (λ t s. record s { tls = t }) (await (runtime get_tls_certificate))
          (await-IsQuiet (runtime get_tls_certificate)) keep

    pub dkim_keep :
        ((t : Tile (List DkimKey)) (s : Page) → P s → P (record s { dkim = t }))
        → KeepsAlways srv P load_dkim
    dkim_keep keep =
        load_tile-Keeps srv P (λ t s. record s { dkim = t }) (await (filtering list_dkim_keys))
          (await-IsQuiet (filtering list_dkim_keys)) keep

    pub services_keep :
        ((t : Tile (List ServiceStatus)) (s : Page) → P s → P (record s { services = t }))
        → KeepsAlways srv P load_services
    services_keep keep =
        load_tile-Keeps srv P (λ t s. record s { services = t }) (await (runtime list_services))
          (await-IsQuiet (runtime list_services)) keep

    pub stats_keep :
        ((t : Tile MailStats) (s : Page) → P s → P (record s { stats = t }))
        → KeepsAlways srv P load_stats
    stats_keep keep =
        load_tile-Keeps srv P (λ t s. record s { stats = t }) (await (runtime get_mail_stats))
          (await-IsQuiet (runtime get_mail_stats)) keep

    pub environment_keep :
        ((t : Tile MailserverEnvironment) (s : Page) → P s → P (record s { environment = t }))
        → KeepsAlways srv P load_environment
    environment_keep keep =
        load_tile-Keeps srv P (λ t s. record s { environment = t })
          (await (runtime get_environment)) (await-IsQuiet (runtime get_environment)) keep

    pub accounts_keep :
        ((t : Tile AccountsOverview) (s : Page) → P s → P (record s { accounts = t }))
        → KeepsAlways srv P load_accounts
    accounts_keep keep =
        load_tile-Keeps srv P (λ t s. record s { accounts = t }) fetch_accounts accounts-IsQuiet
          keep
