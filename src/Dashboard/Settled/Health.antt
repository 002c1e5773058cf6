-- ===== src/Dashboard/Settled/Health.antt =====
-- The tiles on the keys, the services, the mail, the environment and the accounts.
use mailserver_ui.Common.{[], ◌∷◌, ◌++◌, refl}
use mailserver_ui.Async.{await, Server}
use mailserver_ui.Async.Parallel.{par_all, Sets-run}
use mailserver_ui.Async.Parallel.Laws.{Sets-par_all}
use mailserver_ui.Api.{
  Call, Reply, filtering, runtime, list_dkim_keys, list_services, get_mail_stats, get_environment,
}
use mailserver_ui.Dashboard.{
  Page, fetch_accounts, manager_tiles, admin_tiles, load_mailboxes, load_usage, load_queue,
  load_fail2ban, load_tls, load_dkim, load_services, load_stats, load_environment, load_accounts,
}
use mailserver_ui.Dashboard.Tiles.{load_tile-Sets}
use mailserver_ui.Dashboard.Keeps.{
  mailboxes_keep, usage_keep, queue_keep, fail2ban_keep, tls_keep, dkim_keep, services_keep,
  stats_keep, environment_keep, accounts_keep, ◌▸◌,
}
use mailserver_ui.Dashboard.Settled.{IsSettled, Ends}

module _ (srv : Server Call Reply) where
  pub dkim-IsSettled : Ends srv (λ s. IsSettled srv (await (filtering list_dkim_keys)) s.dkim)
  dkim-IsSettled =
      let P : Page → Type 0 = λ s. IsSettled srv (await (filtering list_dkim_keys)) s.dkim in
      λ s w. Sets-run srv P (par_all (manager_tiles ++ admin_tiles)) s w (
        Sets-par_all srv P
          (load_mailboxes ∷ load_usage ∷ load_queue ∷ load_fail2ban ∷ load_tls ∷ []) load_dkim
          (load_services ∷ load_stats ∷ load_environment ∷ load_accounts ∷ [])
          (mailboxes_keep srv P (λ _ _ h. h)
            ▸ usage_keep srv P (λ _ _ h. h)
            ▸ queue_keep srv P (λ _ _ h. h)
            ▸ fail2ban_keep srv P (λ _ _ h. h)
            ▸ tls_keep srv P (λ _ _ h. h)
            ▸ tt)
          (load_tile-Sets srv P (λ t s. record s { dkim = t }) (await (filtering list_dkim_keys))
            (λ r o s. (r, (o, refl))))
          (services_keep srv P (λ _ _ h. h)
            ▸ stats_keep srv P (λ _ _ h. h)
            ▸ environment_keep srv P (λ _ _ h. h)
            ▸ accounts_keep srv P (λ _ _ h. h)
            ▸ tt)
          s)

  pub services-IsSettled : Ends srv (λ s. IsSettled srv (await (runtime list_services)) s.services)
  services-IsSettled =
      let P : Page → Type 0 = λ s. IsSettled srv (await (runtime list_services)) s.services in
      λ s w. Sets-run srv P (par_all (manager_tiles ++ admin_tiles)) s w (
        Sets-par_all srv P
          (load_mailboxes ∷ load_usage ∷ load_queue ∷ load_fail2ban ∷ load_tls ∷ load_dkim ∷ [])
          load_services (load_stats ∷ load_environment ∷ load_accounts ∷ [])
          (mailboxes_keep srv P (λ _ _ h. h)
            ▸ usage_keep srv P (λ _ _ h. h)
            ▸ queue_keep srv P (λ _ _ h. h)
            ▸ fail2ban_keep srv P (λ _ _ h. h)
            ▸ tls_keep srv P (λ _ _ h. h)
            ▸ dkim_keep srv P (λ _ _ h. h)
            ▸ tt)
          (load_tile-Sets srv P (λ t s. record s { services = t }) (await (runtime list_services))
            (λ r o s. (r, (o, refl))))
          (stats_keep srv P (λ _ _ h. h)
            ▸ environment_keep srv P (λ _ _ h. h)
            ▸ accounts_keep srv P (λ _ _ h. h)
            ▸ tt)
          s)

  pub stats-IsSettled : Ends srv (λ s. IsSettled srv (await (runtime get_mail_stats)) s.stats)
  stats-IsSettled =
      let P : Page → Type 0 = λ s. IsSettled srv (await (runtime get_mail_stats)) s.stats in
      λ s w. Sets-run srv P (par_all (manager_tiles ++ admin_tiles)) s w (
        Sets-par_all srv P
          (load_mailboxes ∷ load_usage ∷ load_queue ∷ load_fail2ban ∷ load_tls ∷ load_dkim
            ∷ load_services ∷ [])
          load_stats (load_environment ∷ load_accounts ∷ [])
          (mailboxes_keep srv P (λ _ _ h. h)
            ▸ usage_keep srv P (λ _ _ h. h)
            ▸ queue_keep srv P (λ _ _ h. h)
            ▸ fail2ban_keep srv P (λ _ _ h. h)
            ▸ tls_keep srv P (λ _ _ h. h)
            ▸ dkim_keep srv P (λ _ _ h. h)
            ▸ services_keep srv P (λ _ _ h. h)
            ▸ tt)
          (load_tile-Sets srv P (λ t s. record s { stats = t }) (await (runtime get_mail_stats))
            (λ r o s. (r, (o, refl))))
          (environment_keep srv P (λ _ _ h. h) ▸ accounts_keep srv P (λ _ _ h. h) ▸ tt) s)

  pub environment-IsSettled :
      Ends srv (λ s. IsSettled srv (await (runtime get_environment)) s.environment)
  environment-IsSettled =
      let P : Page → Type 0 = λ s. IsSettled srv (await (runtime get_environment)) s.environment in
      λ s w. Sets-run srv P (par_all (manager_tiles ++ admin_tiles)) s w (
        Sets-par_all srv P
          (load_mailboxes ∷ load_usage ∷ load_queue ∷ load_fail2ban ∷ load_tls ∷ load_dkim
            ∷ load_services ∷ load_stats ∷ [])
          load_environment (load_accounts ∷ [])
          (mailboxes_keep srv P (λ _ _ h. h)
            ▸ usage_keep srv P (λ _ _ h. h)
            ▸ queue_keep srv P (λ _ _ h. h)
            ▸ fail2ban_keep srv P (λ _ _ h. h)
            ▸ tls_keep srv P (λ _ _ h. h)
            ▸ dkim_keep srv P (λ _ _ h. h)
            ▸ services_keep srv P (λ _ _ h. h)
            ▸ stats_keep srv P (λ _ _ h. h)
            ▸ tt)
          (load_tile-Sets srv P (λ t s. record s { environment = t })
            (await (runtime get_environment)) (λ r o s. (r, (o, refl))))
          (accounts_keep srv P (λ _ _ h. h) ▸ tt) s)

  pub accounts-IsSettled : Ends srv (λ s. IsSettled srv fetch_accounts s.accounts)
  accounts-IsSettled =
      let P : Page → Type 0 = λ s. IsSettled srv fetch_accounts s.accounts in
      λ s w. Sets-run srv P (par_all (manager_tiles ++ admin_tiles)) s w (
        Sets-par_all srv P
          (load_mailboxes ∷ load_usage ∷ load_queue ∷ load_fail2ban ∷ load_tls ∷ load_dkim
            ∷ load_services ∷ load_stats ∷ load_environment ∷ [])
          load_accounts ([])
          (mailboxes_keep srv P (λ _ _ h. h)
            ▸ usage_keep srv P (λ _ _ h. h)
            ▸ queue_keep srv P (λ _ _ h. h)
            ▸ fail2ban_keep srv P (λ _ _ h. h)
            ▸ tls_keep srv P (λ _ _ h. h)
            ▸ dkim_keep srv P (λ _ _ h. h)
            ▸ services_keep srv P (λ _ _ h. h)
            ▸ stats_keep srv P (λ _ _ h. h)
            ▸ environment_keep srv P (λ _ _ h. h)
            ▸ tt)
          (load_tile-Sets srv P (λ t s. record s { accounts = t }) fetch_accounts
            (λ r o s. (r, (o, refl))))
          tt s)
