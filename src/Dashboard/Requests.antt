-- ===== src/Dashboard/Requests.antt =====
-- The calls that the dashboard makes for each role.
use mailserver_ui.Common.{
  Bool, true, false, List, [], ◌∷◌, ◌≡◌, refl, arith, All, All-append, if◌then◌else◌,
}
use mailserver_ui.Async.{Server}
use mailserver_ui.Async.Parallel.{par_all}
use mailserver_ui.Async.Sent.{sent, Asks, sent-Asks, Asks-par}
use mailserver_ui.Api.{Call, Reply}
use mailserver_ui.Auth.{AuthState, is_admin, can_manage_mailboxes}
use mailserver_ui.Dashboard.{
  Page, PageTask, manager_tiles, admin_tiles, pending, load_all, load_tile, fetch_accounts,
}

-- The calls that a session may make: a mailbox manager those of the mailboxes, an administrator all.
abbrev pub IsPermitted : AuthState → Call → Type 0
IsPermitted session (Call.mailboxes q) = can_manage_mailboxes session ≡ true
IsPermitted session q = is_admin session ≡ true

module _ (session : AuthState) where
  Asks-par_all :
      (ts : List PageTask)
      → All (Asks (IsPermitted session)) ts
      → Asks (IsPermitted session) (par_all ts)
  Asks-par_all [] h = tt
  Asks-par_all (t ∷ ts) (h, hs) =
      Asks-par (IsPermitted session) t (par_all ts) h (Asks-par_all ts hs)

  manager_tiles-Asks :
      can_manage_mailboxes session ≡ true → All (Asks (IsPermitted session)) manager_tiles
  unfolding load_tile
  manager_tiles-Asks h = ground arith

  admin_tiles-Asks : is_admin session ≡ true → All (Asks (IsPermitted session)) admin_tiles
  unfolding load_tile fetch_accounts
  admin_tiles-Asks h = ground arith

  pending-Asks : All (Asks (IsPermitted session)) (pending session)
  unfolding pending
  pending-Asks =
      All-append (Asks (IsPermitted session)) _ _
        (All-if (can_manage_mailboxes session) manager_tiles manager_tiles-Asks)
        (All-if (is_admin session) admin_tiles admin_tiles-Asks)
    where
      All-if :
          (b : Bool) (ts : List PageTask)
          → (b ≡ true → All (Asks (IsPermitted session)) ts)
          → All (Asks (IsPermitted session)) (if b then ts else [])
      All-if true ts h = h refl
      All-if false ts h = tt

-- Whatever the server answers, the dashboard of a mailbox manager calls nothing but the mailboxes, that
-- of a guest calls nothing, and only that of an administrator calls the other endpoints.
pub load_all-sent :
    (srv : Server Call Reply) (s : Page) (w : srv.World)
    → All (IsPermitted s.session) (sent srv load_all s w)
unfolding sent load_all
load_all-sent srv s w =
    sent-Asks (IsPermitted s.session) srv (par_all (pending s.session))
      (Asks-par_all s.session (pending s.session) (pending-Asks s.session)) s w
