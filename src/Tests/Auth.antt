-- ===== src/Tests/Auth.antt =====
-- The session, the guards and the expiry.
use mailserver_ui.Common.{String, Bool, true, false, none, some, [], ◌∷◌, ◌≡◌, ◌↔◌, ◌⊎◌, refl}
use mailserver_ui.Async.{other, ok, err, http, run}
use mailserver_ui.Auth.Guards.{allow, Guard, for_admin, run_guard, guard_of, guarded_routes}
use mailserver_ui.Auth.Guards.Laws.{Admits, probed, run_guard-allow_iff, run_guard-redirect}
use mailserver_ui.Auth.Expiry.{intercept}
use mailserver_ui.Auth.Expiry.Laws.{IsRejected, intercept_iff}
use mailserver_ui.Async.Sent.{sent}
use mailserver_ui.Login as LoginPage
use mailserver_ui.Login.Flags.{IsOutcome, on_submit-IsOutcome}
use mailserver_ui.Tests.Data.{ann, server, broken, fresh}
use mailserver_ui.Api.{users, UsersCall, auth, login}
use mailserver_ui.Api.Requests.{users_request}
use mailserver_ui.Auth.Expiry.Paths.{intercept-request}

run_guard-allow_iff_example :
    ((run server (run_guard for_admin) fresh 0).0 ≡ ok allow) ↔ Admits for_admin (some ann)
run_guard-allow_iff_example = run_guard-allow_iff server fresh 0 for_admin

run_guard-redirect_example :
    (h : Guard) × (guard_of "/login" guarded_routes ≡ some h)
    × ((run broken (run_guard h) (probed broken fresh 0) 1).0 ≡ ok allow)
unfolding run run_guard
run_guard-redirect_example = run_guard-redirect broken fresh 0 for_admin "/login" refl

intercept_iff_example :
    (((intercept {A = Bool} "/api/users" (err (http 401 none)) false).0 ≡ true)
      ↔ ((false ≡ true) ⊎ IsRejected {A = Bool} "/api/users" (err (http 401 none))))
    × ((intercept {A = Bool} "/api/users" (err (http 401 none)) false).1 ≡ err (http 401 none))
intercept_iff_example = intercept_iff "/api/users" (err (http 401 none)) false

intercept-request_example :
    intercept {A = Bool} (users_request (UsersCall.delete 3)).url (err (http 401 none)) false
    ≡ (true, err (http 401 none))
intercept-request_example =
    intercept-request same_path (users (UsersCall.delete 3)) (users_request (UsersCall.delete 3))
      none false refl
  where
    same_path : String → String
    same_path t = t

abbrev login_page : LoginPage.Page
login_page = record {
  session = fresh;
  loading_config = false;
  submitting = false;
  error = none;
  model = record { username = "ann"; password = "wrong" };
}

on_submit-IsOutcome_example :
    IsOutcome login_page
      (err other)
      (err other)
      (run broken (LoginPage.on_submit true) login_page 0).1
    × ((run broken (LoginPage.on_submit true) login_page 0).0 ≡ ok tt)
    × (sent broken (LoginPage.on_submit true) login_page 0 ≡ auth (login login_page.model) ∷ [])
on_submit-IsOutcome_example = on_submit-IsOutcome broken login_page 0
