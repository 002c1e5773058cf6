-- ===== src/Dashboard/Settled/Traffic.antt =====
-- The tiles on the mailboxes, the queue, the bans and the certificate.
use mailserver_ui.Common.{[], ◌∷◌, ◌++◌, refl}
use mailserver_ui.Async.{await, Server}
use mailserver_ui.Async.Parallel.{par_all, Sets-run}
use mailserver_ui.Async.Parallel.Laws.{Sets-par_all}
use mailserver_ui.Api.{
  Call, Reply, runtime, MailboxesCall, get_status, get_queue, get_tls_certificate,
}
use mailserver_ui.Dashboard.{
  Page, manager_tiles, admin_tiles, load_mailboxes, load_usage, load_queue, load_fail2ban, load_tls,
  load_dkim, load_services, load_stats, load_environment, load_accounts,
}
use mailserver_ui.Dashboard.Tiles.{load_tile-Sets}
use mailserver_ui.Dashboard.Keeps.{
  mailboxes_keep, usage_keep, queue_keep, fail2ban_keep, tls_keep, dkim_keep, services_keep,
  stats_keep, environment_keep, accounts_keep, ◌▸◌,
}
use mailserver_ui.Dashboard.Settled.{IsSettled, Ends}

module _ (srv : Server Call Reply) where
  pub mailboxes-IsSettled :
      Ends srv (λ s. IsSettled srv (await (Call.mailboxes MailboxesCall.list)) s.mailboxes)
  mailboxes-IsSettled =
      let P : Page → Type 0 =
        λ s. IsSettled srv (await (Call.mailboxes MailboxesCall.list)) s.mailboxes in
      λ s w. Sets-run srv P (par_all (manager_tiles ++ admin_tiles)) s w (
        Sets-par_all srv P ([]) load_mailboxes
          (load_usage ∷ load_queue ∷ load_fail2ban ∷ load_tls ∷ load_dkim ∷ load_services
            ∷ load_stats ∷ load_environment ∷ load_accounts ∷ [])
          tt
          (load_tile-Sets srv P (λ t s. record s { mailboxes = t })
            (await (Call.mailboxes MailboxesCall.list)) (λ r o s. (r, (o, refl))))
          (usage_keep srv P (λ _ _ h. h)
            ▸ queue_keep srv P (λ _ _ h. h)
            ▸ fail2ban_keep srv P (λ _ _ h. h)
            ▸ tls_keep srv P (λ _ _ h. h)
            ▸ dkim_keep srv P (λ _ _ h. h)
            ▸ services_keep srv P (λ _ _ h. h)
            ▸ stats_keep srv P (λ _ _ h. h)
            ▸ environment_keep srv P (λ _ _ h. h)
            ▸ accounts_keep srv P (λ _ _ h. h)
            ▸ tt)
          s)

  pub usage-IsSettled :
      Ends srv (λ s. IsSettled srv (await (Call.mailboxes MailboxesCall.usage)) s.usage)
  usage-IsSettled =
      let P : Page → Type 0 =
        λ s. IsSettled srv (await (Call.mailboxes MailboxesCall.usage)) s.usage in
      λ s w. Sets-run srv P (par_all (manager_tiles ++ admin_tiles)) s w (
        Sets-par_all srv P (load_mailboxes ∷ []) load_usage
          (load_queue ∷ load_fail2ban ∷ load_tls ∷ load_dkim ∷ load_services ∷ load_stats
            ∷ load_environment ∷ load_accounts ∷ [])
          (mailboxes_keep srv P (λ _ _ h. h) ▸ tt)
          (load_tile-Sets srv P (λ t s. record s { usage = t })
            (await (Call.mailboxes MailboxesCall.usage)) (λ r o s. (r, (o, refl))))
          (queue_keep srv P (λ _ _ h. h)
            ▸ fail2ban_keep srv P (λ _ _ h. h)
            ▸ tls_keep srv P (λ _ _ h. h)
            ▸ dkim_keep srv P (λ _ _ h. h)
            ▸ services_keep srv P (λ _ _ h. h)
            ▸ stats_keep srv P (λ _ _ h. h)
            ▸ environment_keep srv P (λ _ _ h. h)
            ▸ accounts_keep srv P (λ _ _ h. h)
            ▸ tt)
          s)

  pub queue-IsSettled : Ends srv (λ s. IsSettled srv (await (runtime get_queue)) s.queue)
  queue-IsSettled =
      let P : Page → Type 0 = λ s. IsSettled srv (await (runtime get_queue)) s.queue in
      λ s w. Sets-run srv P (par_all (manager_tiles ++ admin_tiles)) s w (
        Sets-par_all srv P (load_mailboxes ∷ load_usage ∷ []) load_queue
          (load_fail2ban ∷ load_tls ∷ load_dkim ∷ load_services ∷ load_stats ∷ load_environment
            ∷ load_accounts ∷ [])
          (mailboxes_keep srv P (λ _ _ h. h) ▸ usage_keep srv P (λ _ _ h. h) ▸ tt)
          (load_tile-Sets srv P (λ t s. record s { queue = t }) (await (runtime get_queue))
            (λ r o s. (r, (o, refl))))
          (fail2ban_keep srv P (λ _ _ h. h)
            ▸ tls_keep srv P (λ _ _ h. h)
            ▸ dkim_keep srv P (λ _ _ h. h)
            ▸ services_keep srv P (λ _ _ h. h)
            ▸ stats_keep srv P (λ _ _ h. h)
            ▸ environment_keep srv P (λ _ _ h. h)
            ▸ accounts_keep srv P (λ _ _ h. h)
            ▸ tt)
          s)

  pub fail2ban-IsSettled :
      Ends srv (λ s. IsSettled srv (await (Call.fail2ban get_status)) s.fail2ban)
  fail2ban-IsSettled =
      let P : Page → Type 0 = λ s. IsSettled srv (await (Call.fail2ban get_status)) s.fail2ban in
      λ s w. Sets-run srv P (par_all (manager_tiles ++ admin_tiles)) s w (
        Sets-par_all srv P (load_mailboxes ∷ load_usage ∷ load_queue ∷ []) load_fail2ban
          (load_tls ∷ load_dkim ∷ load_services ∷ load_stats ∷ load_environment ∷ load_accounts
            ∷ [])
          (mailboxes_keep srv P (λ _ _ h. h)
            ▸ usage_keep srv P (λ _ _ h. h)
            ▸ queue_keep srv P (λ _ _ h. h)
            ▸ tt)
          (load_tile-Sets srv P (λ t s. record s { fail2ban = t })
            (await (Call.fail2ban get_status)) (λ r o s. (r, (o, refl))))
          (tls_keep srv P (λ _ _ h. h)
            ▸ dkim_keep srv P (λ _ _ h. h)
            ▸ services_keep srv P (λ _ _ h. h)
            ▸ stats_keep srv P (λ _ _ h. h)
            ▸ environment_keep srv P (λ _ _ h. h)
            ▸ accounts_keep srv P (λ _ _ h. h)
            ▸ tt)
          s)

  pub tls-IsSettled : Ends srv (λ s. IsSettled srv (await (runtime get_tls_certificate)) s.tls)
  tls-IsSettled =
      let P : Page → Type 0 = λ s. IsSettled srv (await (runtime get_tls_certificate)) s.tls in
      λ s w. Sets-run srv P (par_all (manager_tiles ++ admin_tiles)) s w (
        Sets-par_all srv P (load_mailboxes ∷ load_usage ∷ load_queue ∷ load_fail2ban ∷ []) load_tls
          (load_dkim ∷ load_services ∷ load_stats ∷ load_environment ∷ load_accounts ∷ [])
          (mailboxes_keep srv P (λ _ _ h. h)
            ▸ usage_keep srv P (λ _ _ h. h)
            ▸ queue_keep srv P (λ _ _ h. h)
            ▸ fail2ban_keep srv P (λ _ _ h. h)
            ▸ tt)
          (load_tile-Sets srv P (λ t s. record s { tls = t }) (await (runtime get_tls_certificate))
            (λ r o s. (r, (o, refl))))
          (dkim_keep srv P (λ _ _ h. h)
            ▸ services_keep srv P (λ _ _ h. h)
            ▸ stats_keep srv P (λ _ _ h. h)
            ▸ environment_keep srv P (λ _ _ h. h)
            ▸ accounts_keep srv P (λ _ _ h. h)
            ▸ tt)
          s)
