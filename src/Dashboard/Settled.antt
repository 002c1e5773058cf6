-- ===== src/Dashboard/Settled.antt =====
-- What each tile ends with after all of them have loaded in parallel.
pub mod Traffic
pub mod Health
use mailserver_ui.Common.{[], ◌∷◌, ◌++◌, ◌≡◌, refl}
use mailserver_ui.Async.{Result, ok, await, Server, run}
use mailserver_ui.Async.Parallel.{par_all, Outcome, Sets-run}
use mailserver_ui.Async.Parallel.Laws.{Sets-par_all}
use mailserver_ui.Api.{
  Call, Reply, filtering, runtime, MailboxesCall, get_status, get_queue, get_tls_certificate,
  list_dkim_keys, list_services, get_mail_stats, get_environment,
}
use mailserver_ui.Dashboard.{
  Tile, Page, Fetch, fetch_accounts, manager_tiles, admin_tiles, load_mailboxes, load_usage,
  load_queue, load_fail2ban, load_tls, load_dkim, load_services, load_stats, load_environment,
  load_accounts,
}
use mailserver_ui.Dashboard.Tiles.{tile_of, load_tile-Sets}
use mailserver_ui.Dashboard.Keeps.{
  mailboxes_keep, usage_keep, queue_keep, fail2ban_keep, tls_keep, dkim_keep, services_keep,
  stats_keep, environment_keep, accounts_keep,
}

module _ (srv : Server Call Reply) where
  -- The tile shows an answer that its own endpoint gave.
  abbrev pub IsSettled : {T : Type 0} → Fetch T → Tile T → Type 0
  IsSettled fetch tile = (r : Result _) × (Outcome srv fetch r × (tile ≡ tile_of r))

  pub record AllSettled (s : Page) : Type 0 where
    pub mailboxes : IsSettled (await (Call.mailboxes MailboxesCall.list)) s.mailboxes
    pub usage : IsSettled (await (Call.mailboxes MailboxesCall.usage)) s.usage
    pub queue : IsSettled (await (runtime get_queue)) s.queue
    pub fail2ban : IsSettled (await (Call.fail2ban get_status)) s.fail2ban
    pub tls : IsSettled (await (runtime get_tls_certificate)) s.tls
    pub dkim : IsSettled (await (filtering list_dkim_keys)) s.dkim
    pub services : IsSettled (await (runtime list_services)) s.services
    pub stats : IsSettled (await (runtime get_mail_stats)) s.stats
    pub environment : IsSettled (await (runtime get_environment)) s.environment
    pub accounts : IsSettled fetch_accounts s.accounts

  -- All the tiles load, without a failure, and `P` holds in the end.
  abbrev pub Ends : (Page → Type 0) → Type 0
  Ends P =
      (s : Page) (w : srv.World)
      → ((run srv (par_all (manager_tiles ++ admin_tiles)) s w).0 ≡ ok tt)
        × P (run srv (par_all (manager_tiles ++ admin_tiles)) s w).1
