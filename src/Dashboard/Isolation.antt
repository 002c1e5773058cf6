-- ===== src/Dashboard/Isolation.antt =====
-- Every tile ends with its own answer, whatever happens to the others.
use mailserver_ui.Common.{true, ◌++◌, ◌≡◌, arith}
use mathlib.Core.Path.{subst, sym}
use mailserver_ui.Async.{ok, Server, run}
use mailserver_ui.Async.Parallel.{par_all}
use mailserver_ui.Api.{Call, Reply}
use mailserver_ui.Auth.{AuthState, is_admin, can_manage_mailboxes, role_grants, rank}
use mailserver_ui.Dashboard.{Page, manager_tiles, admin_tiles, pending, load_all}
use mailserver_ui.Dashboard.Settled.{AllSettled}
use mailserver_ui.Dashboard.Settled.Traffic.{
  mailboxes-IsSettled, usage-IsSettled, queue-IsSettled, fail2ban-IsSettled, tls-IsSettled,
}
use mailserver_ui.Dashboard.Settled.Health.{
  dkim-IsSettled, services-IsSettled, stats-IsSettled, environment-IsSettled, accounts-IsSettled,
}

pending_admin :
    (session : AuthState) → is_admin session ≡ true → pending session ≡ manager_tiles ++ admin_tiles
unfolding pending is_admin can_manage_mailboxes role_grants rank
pending_admin session h = ground arith

-- For an administrator, and in whichever order the answers arrive, the dashboard loads without a
-- failure and each of the ten tiles ends with an answer of its own endpoint, data or an error, whatever
-- the other endpoints answer.
pub load_all-AllSettled :
    (srv : Server Call Reply) (s : Page) (w : srv.World)
    → is_admin s.session ≡ true
    → ((run srv load_all s w).0 ≡ ok tt) × AllSettled srv (run srv load_all s w).1
unfolding run load_all
load_all-AllSettled srv s w h =
    subst
      (λ ts. ((run srv (par_all ts) s w).0 ≡ ok tt) × AllSettled srv (run srv (par_all ts) s w).1)
      (sym (pending_admin s.session h))
      (
        (mailboxes-IsSettled srv s w).0,
        record {
          mailboxes = (mailboxes-IsSettled srv s w).1;
          usage = (usage-IsSettled srv s w).1;
          queue = (queue-IsSettled srv s w).1;
          fail2ban = (fail2ban-IsSettled srv s w).1;
          tls = (tls-IsSettled srv s w).1;
          dkim = (dkim-IsSettled srv s w).1;
          services = (services-IsSettled srv s w).1;
          stats = (stats-IsSettled srv s w).1;
          environment = (environment-IsSettled srv s w).1;
          accounts = (accounts-IsSettled srv s w).1;
        },
      )
