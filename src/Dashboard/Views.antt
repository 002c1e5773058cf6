-- ===== src/Dashboard/Views.antt =====
-- What the dashboard derives from its tiles. `order` is the order of texts by code units.
use mailserver_ui.Common.{
  ℕ, ◌+◌, ◌-◌, ℤ, pos, negsuc, is_below, String, Bool, true, false, not, ◌||◌, Option, none, some,
  List, [], ◌∷◌, ◌++◌, map, filter, any, take, length, Ordering, if◌then◌else◌, or_else, str_eq,
  ltb,
}
use Prim.Native.Nat.{compare}
use mailserver_ui.Models.{
  Mailbox, MailboxUsage, DkimKey, Fail2banJail, QueueMessage, ServiceStatus, EnvironmentWarning,
  WarningLevel, danger, User, Role, admin,
}
use mailserver_ui.TableSort.{sort}
use mailserver_ui.Dashboard.{Tile, Page}
pub mod Domains
pub mod Laws

-- `tile().data?.field ?? default`
abbrev pub data_or : {T A : Type 0} → Tile T → (T → A) → A → A
data_or tile f d = elim tile.data_of [ none ↦ d | some x ↦ f x ]

abbrev pub has_text : String → List String → Bool
has_text t ts = any (λ u. str_eq u t) ts

-- `[...new Set(texts)]`: each text where it stands first.
unfoldable pub distinct_from : List String → List String → List String
distinct_from seen [] = []
distinct_from seen (t ∷ ts) =
    let rest = distinct_from seen ts in
    let fresh = distinct_from (t ∷ seen) ts in if has_text t seen then rest else t ∷ fresh

unfoldable pub domains : (String → String → Ordering) → Page → List String
unfolding distinct_from
domains order s =
    data_or s.mailboxes (λ ms. sort order (distinct_from [] (map (λ (m : Mailbox). m.domain) ms)))
      []

abbrev pub top_count : ℕ
top_count = 5

unfoldable pub top_mailboxes : Page → List MailboxUsage
top_mailboxes s = data_or s.usage (λ u. take top_count u.mailboxes) []

pub record DkimCoverage : Type 0 where
  pub signed : ℕ
  pub total : ℕ
  pub missing : List String

abbrev pub is_empty_list : {A : Type 0} → List A → Bool
is_empty_list [] = true
is_empty_list (x ∷ xs) = false

abbrev pub unsigned : List DkimKey → List String → List String
unsigned keys ds = filter (λ d. not (has_text d (map (λ (k : DkimKey). k.domain) keys))) ds

-- `dkimCoverage` on the keys and the domains.
unfoldable pub coverage : Option (List DkimKey) → List String → Option DkimCoverage
coverage none ds = none
coverage (some keys) ds =
    if is_empty_list ds
    then none
    else some (record {
      signed = length ds - length (unsigned keys ds);
      total = length ds;
      missing = unsigned keys ds;
    })

unfoldable pub dkim_coverage : (String → String → Ordering) → Page → Option DkimCoverage
unfolding coverage domains
dkim_coverage order s = coverage s.dkim.data_of (domains order s)

abbrev pub count_of : String → List (String × ℕ) → ℕ
count_of key [] = 0
count_of key ((k, n) ∷ entries) = if str_eq k key then n else count_of key entries

unfoldable pub deferred_count : Page → ℕ
deferred_count s = data_or s.queue (λ q. count_of "deferred" q.counts) 0

abbrev pub arrivals : List QueueMessage → List String
arrivals [] = []
arrivals (m ∷ ms) = elim m.arrival_time [ none ↦ arrivals ms | some t ↦ t ∷ arrivals ms ]

abbrev pub is_lt : Ordering → Bool
is_lt Ordering.lt = true
is_lt o = false

-- `times.reduce((a, b) => (a < b ? a : b))` from `a` on
unfoldable pub earliest : (String → String → Ordering) → String → List String → String
earliest order a [] = a
earliest order a (b ∷ ts) = earliest order (if is_lt (order a b) then a else b) ts

unfoldable pub oldest_of : (String → String → Ordering) → List String → Option String
unfolding earliest
oldest_of order [] = none
oldest_of order (t ∷ ts) = some (earliest order t ts)

unfoldable pub oldest_queued : (String → String → Ordering) → Page → Option String
unfolding oldest_of
oldest_queued order s = oldest_of order (data_or s.queue (λ q. arrivals q.messages) [])

abbrev pub total_banned : List Fail2banJail → ℕ
total_banned [] = 0
total_banned (j ∷ js) = j.currently_banned + total_banned js

abbrev pub jails_of : Page → List Fail2banJail
jails_of s = data_or s.fail2ban (λ f. f.jails) []

unfoldable pub banned_ips_count : Page → ℕ
banned_ips_count s = total_banned (jails_of s)

abbrev pub more_banned : Fail2banJail → Fail2banJail → Ordering
more_banned a b = compare b.currently_banned a.currently_banned

unfoldable pub active_jails : Page → List Fail2banJail
active_jails s = sort more_banned (filter (λ j. ltb 0 j.currently_banned) (jails_of s))

abbrev pub tls_critical_days : ℕ
tls_critical_days = 15

abbrev pub tls_warning_days : ℕ
tls_warning_days = 30

unfoldable pub class_of_days : Option ℤ → String
class_of_days none = "text-body-secondary"
class_of_days (some days) =
    if is_below days 0
    then "text-danger"
    else if is_below days tls_critical_days
    then "text-danger"
    else if is_below days tls_warning_days
    then "text-warning"
    else "text-success"

unfoldable pub tls_class : Page → String
unfolding class_of_days
tls_class s = class_of_days (data_or s.tls (λ c. c.days_remaining) none)

abbrev services_of : Page → List ServiceStatus
services_of s = data_or s.services (λ ss. ss) []

unfoldable pub services_failed : Page → List ServiceStatus
services_failed s = filter (λ (x : ServiceStatus). x.failed) (services_of s)

unfoldable pub services_running : Page → List ServiceStatus
services_running s = filter (λ (x : ServiceStatus). x.running) (services_of s)

abbrev pub service_rank : ServiceStatus → ℕ
service_rank x = if x.running then 0 else if x.failed then 1 else 2

-- `rank(a) - rank(b) || a.name.localeCompare(b.name)`
unfoldable pub compare_services :
    (String → String → Ordering) → ServiceStatus → ServiceStatus → Ordering
compare_services locale a b = elim (compare (service_rank a) (service_rank b)) [
  | Ordering.eq ↦ locale a.name b.name
  | o ↦ o
]

unfoldable pub sorted_services : (String → String → Ordering) → Page → List ServiceStatus
unfolding compare_services
sorted_services locale s = sort (compare_services locale) (services_of s)

unfoldable pub environment_warnings : Page → List EnvironmentWarning
environment_warnings s = data_or s.environment (λ e. e.warnings) []

abbrev is_danger : WarningLevel → Bool
is_danger danger = true
is_danger level = false

unfoldable pub has_danger_warning : Page → Bool
unfolding environment_warnings
has_danger_warning s = any (λ (x : EnvironmentWarning). is_danger x.level) (environment_warnings s)
