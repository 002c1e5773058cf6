-- ===== src/Login/Flags.antt =====
-- What a sign-in leaves behind.
use mailserver_ui.Common.{
  String, Bool, true, false, Option, none, some, List, [], ◌∷◌, ◌≡◌, ◌≢◌, ◌⊎◌, arith,
}
use mailserver_ui.Async.{Failure, http, other, Result, ok, err, Server, run}
use mailserver_ui.Async.Sent.{sent}
use mailserver_ui.Models.{SessionUser}
use mailserver_ui.Api.{Call, Reply, auth, login, navigate}
use mailserver_ui.Login.{Page, on_submit, message_for}

-- What the page shows of a failed attempt: that the credentials are wrong on a 401, that there were
-- too many attempts on a 429, and a general text on anything else.
abbrev pub IsToldAs : Failure → Option String → Type 0
IsToldAs other shown = shown ≡ some "Unable to sign in. Please try again."
IsToldAs (http status detail) shown =
    ((status ≡ 401) × (shown ≡ some "Invalid username or password."))
    ⊎ (((status ≡ 429) × (shown ≡ some "Too many attempts. Please try again later."))
        ⊎ ((status ≢ 401) × (status ≢ 429) × (shown ≡ some "Unable to sign in. Please try again.")))

message_for-IsToldAs : (e : Failure) → IsToldAs e (some (message_for e))
unfolding message_for
message_for-IsToldAs other = ground arith
message_for-IsToldAs (http status detail) = ground arith

-- The page after the answers to the sign-in and to the navigation.
abbrev pub IsOutcome : Page → Result SessionUser → Result Bool → Page → Type 0
IsOutcome s (ok u) (ok b) s' =
    s' ≡ record s { session = record s.session { user = some u }; submitting = false; error = none }
IsOutcome s (ok u) (err e) s' =
    (s'.session ≡ record s.session { user = some u })
    × (s'.submitting ≡ false)
    × (s'.model ≡ s.model)
    × IsToldAs e s'.error
IsOutcome s (err e) b s' =
    (s'.session ≡ s.session) × (s'.submitting ≡ false) × (s'.model ≡ s.model) × IsToldAs e s'.error

-- The calls of an attempt: only an accepted one leaves the page.
abbrev pub calls_of : Page → Result SessionUser → List Call
calls_of s (ok u) = auth (login s.model) ∷ navigate "/dashboard" ∷ []
calls_of s (err e) = auth (login s.model) ∷ []

-- An attempt to sign in with a filled form never fails towards its caller and ends with the spinner
-- off. If the server accepts, its user is the session's and the dashboard is opened, and no error is
-- shown unless the navigation fails. If it refuses, the session is as before, the page is not left
-- and what was typed stays. The error that is shown is that of the status: wrong credentials on
-- a 401, too many attempts on a 429, and a general text on anything else.
pub on_submit-IsOutcome :
    (srv : Server Call Reply) (s : Page) (w : srv.World)
    → let answer = srv.reply w (auth (login s.model)) in
      let opened = srv.reply (srv.after w (auth (login s.model))) (navigate "/dashboard") in
      IsOutcome s answer opened (run srv (on_submit true) s w).1
      × ((run srv (on_submit true) s w).0 ≡ ok tt)
      × (sent srv (on_submit true) s w ≡ calls_of s answer)
unfolding run on_submit sent
on_submit-IsOutcome srv s w = grind (arith, message_for-IsToldAs)
