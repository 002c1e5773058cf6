-- ===== src/Dashboard.antt =====
-- The dashboard: frontend/src/app/features/dashboard/dashboard.ts. Its tiles and how they load.
pub mod Tiles
pub mod Keeps
pub mod Settled
pub mod Isolation
pub mod Views
pub mod Requests
use mailserver_ui.Common.{
  ℕ, String, Bool, true, false, Option, none, some, List, [], ◌∷◌, ◌++◌, if◌then◌else◌, length,
}
use mailserver_ui.Async.{
  Task, ◌>>=◌, ◌>>◌, pure, try_catch, try_finally, await, await_both, modify, read,
}
use mailserver_ui.Async.Parallel.{par_all}
use mailserver_ui.Models.{
  Mailbox, MailboxUsageSummary, QueueSummary, Fail2banStatus, TlsCertificate, DkimKey,
  ServiceStatus, MailStats, MailserverEnvironment, User,
}
use mailserver_ui.Api.{
  Call, Reply, users, groups, mailboxes, fail2ban, filtering, runtime, UsersCall, GroupsCall,
  MailboxesCall, get_status, get_queue, get_tls_certificate, list_dkim_keys, list_services,
  get_mail_stats, get_environment,
}
use mailserver_ui.Auth.{AuthState, is_admin, can_manage_mailboxes}
use mailserver_ui.Mailserver.Texts.{mailserver_error_message}

pub record Tile (T : Type 0) : Type 0 where
  pub data_of : Option T
  pub error : Option String
  pub loading : Bool

pub record AccountsOverview : Type 0 where
  pub users : List User
  pub group_count : ℕ

pub record Page : Type 0 where
  pub session : AuthState
  pub refreshing : Bool
  pub mailboxes : Tile (List Mailbox)
  pub usage : Tile MailboxUsageSummary
  pub queue : Tile QueueSummary
  pub fail2ban : Tile Fail2banStatus
  pub tls : Tile TlsCertificate
  pub dkim : Tile (List DkimKey)
  pub services : Tile (List ServiceStatus)
  pub stats : Tile MailStats
  pub environment : Tile MailserverEnvironment
  pub accounts : Tile AccountsOverview

abbrev pub PageTask : Type 0
PageTask = Task Page Call Reply (Unit {0})

abbrev pub Fetch : Type 0 → Type 0
Fetch T = Task Page Call Reply T

abbrev pub pending_tile : {T : Type 0} → Tile T
pending_tile = record { data_of = none; error = none; loading = true }

-- `load(tile, fetch)`, `set` being `tile.set`.
unfoldable pub load_tile : {T : Type 0} → (Tile T → Page → Page) → Fetch T → PageTask
load_tile set fetch = do
  modify (set pending_tile)
  try_catch
      (do
        value ← fetch
        modify (set (record { data_of = some value; error = none; loading = false })))
      (λ err. modify (
        set (record {
          data_of = none;
          error = some (mailserver_error_message err);
          loading = false;
        })))

unfoldable pub fetch_accounts : Fetch AccountsOverview
fetch_accounts = do
  (found, found_groups) ← await_both (users UsersCall.list) (groups GroupsCall.list)
  pure (record { users = found; group_count = length found_groups })

-- What `loadAll` starts for each tile.
abbrev pub load_mailboxes : PageTask
load_mailboxes =
    load_tile (λ t s. record s { mailboxes = t }) (await (Call.mailboxes MailboxesCall.list))

abbrev pub load_usage : PageTask
load_usage = load_tile (λ t s. record s { usage = t }) (await (Call.mailboxes MailboxesCall.usage))

abbrev pub load_queue : PageTask
load_queue = load_tile (λ t s. record s { queue = t }) (await (runtime get_queue))

abbrev pub load_fail2ban : PageTask
load_fail2ban = load_tile (λ t s. record s { fail2ban = t }) (await (Call.fail2ban get_status))

abbrev pub load_tls : PageTask
load_tls = load_tile (λ t s. record s { tls = t }) (await (runtime get_tls_certificate))

abbrev pub load_dkim : PageTask
load_dkim = load_tile (λ t s. record s { dkim = t }) (await (filtering list_dkim_keys))

abbrev pub load_services : PageTask
load_services = load_tile (λ t s. record s { services = t }) (await (runtime list_services))

abbrev pub load_stats : PageTask
load_stats = load_tile (λ t s. record s { stats = t }) (await (runtime get_mail_stats))

abbrev pub load_environment : PageTask
load_environment = load_tile (λ t s. record s { environment = t }) (await (runtime get_environment))

abbrev pub load_accounts : PageTask
load_accounts = load_tile (λ t s. record s { accounts = t }) fetch_accounts

abbrev pub manager_tiles : List PageTask
manager_tiles = load_mailboxes ∷ load_usage ∷ []

abbrev pub admin_tiles : List PageTask
admin_tiles =
    load_queue ∷ load_fail2ban ∷ load_tls ∷ load_dkim ∷ load_services ∷ load_stats
    ∷ load_environment ∷ load_accounts ∷ []

-- `pending` of `loadAll`: the tiles that the role may see.
unfoldable pub pending : AuthState → List PageTask
pending session =
    (if can_manage_mailboxes session then manager_tiles else [])
    ++ (if is_admin session then admin_tiles else [])

unfoldable pub load_all : PageTask
load_all = do s ← read; par_all (pending s.session)

unfoldable pub refresh : PageTask
refresh = do
  modify (λ s. record s { refreshing = true })
  try_finally load_all (modify (λ s. record s { refreshing = false }))
