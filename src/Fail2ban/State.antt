-- ===== src/Fail2ban/State.antt =====
-- The signals of the fail2ban page, its messages and the check of the ban policy.
use mailserver_ui.Common.{
  ℕ, String, Bool, false, Option, none, some, List, [], ◌∷◌, map, ◌++◌, ◌||◌, ◌&&◌, ◌⊎◌, inl, inr,
  if◌then◌else◌, ◌==◌, leb, ltb, length,
}
use mailserver_ui.Async.{Failure, http, other, Task}
use mailserver_ui.Models.{Fail2banJail, BannedIp, Fail2banPolicyUpdateRequest}
use mailserver_ui.Api.{Call, Reply}
use mailserver_ui.Auth.{AuthState}
use mailserver_ui.TableSort.{TableSort}
use mailserver_ui.Fail2ban.Log.{LogColumn}

pub data Tab : Type 0 where
  overview policy log : Tab

-- What `Number` makes of a field of the form; `none` is anything but a whole number that is not
-- negative: a fraction, a negative number or NaN.
pub record PolicyModel : Type 0 where
  pub bantime : Option ℕ
  pub findtime : Option ℕ
  pub maxretry : Option ℕ

pub record Page : Type 0 where
  pub session : AuthState
  pub logging_out : Bool
  pub active_tab : Tab
  pub jails : List Fail2banJail
  pub fail2ban_enabled : Bool
  pub status_loading : Bool
  pub status_error : Option String
  pub action_success : Option String
  pub action_error : Option String
  pub banning : Bool
  pub unbanning_ip : Option String
  pub ban_ip : String
  pub policy_loading : Bool
  pub policy_loaded : Bool
  pub policy_error : Option String
  pub policy_success : Option String
  pub saving_policy : Bool
  pub policy_configured : Bool
  pub policy_model : PolicyModel
  pub daemon_config : String
  pub saving_config : Bool
  pub log_lines : List String
  pub log_loading : Bool
  pub log_loaded : Bool
  pub log_error : Option String
  pub log_filter : String
  pub log_sort : TableSort LogColumn

abbrev pub PageTask : Type 0
PageTask = Task Page Call Reply (Unit {0})

unfoldable pub message_for : Failure → String
message_for other = "Something went wrong. Please try again."
message_for (http status detail) =
    if status == 400
    then "Invalid request. Fail2ban may be disabled — check ENABLE_FAIL2BAN and the IP."
    else if status == 502
    then "The mailserver container could not be reached. Check the Docker socket mount."
    else if status == 422
    then "Invalid input. Check the IP address and try again."
    else "Something went wrong. Please try again."

-- `jails.flatMap((jail) => jail.banned_ips.map((ip) => ({ ip, jail: jail.name })))`
unfoldable pub banned_ips : List Fail2banJail → List BannedIp
banned_ips [] = []
banned_ips (jail ∷ jails) =
    map (λ ip. record { ip = ip; jail = jail.name }) jail.banned_ips ++ banned_ips jails

unfoldable pub total_banned : Page → ℕ
total_banned s = length (banned_ips s.jails)

abbrev pub is_duration : Option ℕ → Bool
is_duration none = false
is_duration (some seconds) = leb 60 seconds

abbrev pub bad_durations : String
bad_durations = "The ban duration and detection window must be at least 60 seconds."

abbrev pub bad_retries : String
bad_retries = "The retry count must be between 1 and 100."

-- The tests of `onSavePolicy` in their order: the reason to refuse the form, or the request.
unfoldable pub checked_policy :
    Option ℕ → Option ℕ → Option ℕ → String ⊎ Fail2banPolicyUpdateRequest
checked_policy (some bantime) (some findtime) (some maxretry) =
    if leb 60 bantime && leb 60 findtime
    then (if ltb maxretry 1 || ltb 100 maxretry
        then inl bad_retries
        else inr (record { bantime = bantime; findtime = findtime; maxretry = maxretry }))
    else inl bad_durations
checked_policy bantime findtime maxretry =
    if is_duration bantime && is_duration findtime then inl bad_retries else inl bad_durations
