-- ===== src/Profile/Requests.antt =====
-- The requests that the page sends.
use mailserver_ui.Common.{ℕ, String, Bool, true, false, none, ◌≡◌, arith, is_empty, trim, All}
use mailserver_ui.Async.{Server}
use mailserver_ui.Async.Sent.{sent, Asks, Asks-if, Asks-problem, sent-Asks}
use mailserver_ui.Api.{Call, Reply}
use mailserver_ui.Api.Sound.{IsSound, IsLong}
use mailserver_ui.Profile.{
  Page, load_profile, load_pats, on_expiry_change, start_create_pat, cancel_create_pat,
  create_pat_call, create_pat, revoke_pat, copy_secret, dismiss_new_pat, password_problem,
  change_password_call, on_submit,
}
use mailserver_ui.Profile.Flags.{Action, creates_pat, submits_password, profile_action}

IsLong-password_problem :
    (password confirm : String) → password_problem password confirm ≡ none → IsLong password
unfolding password_problem
IsLong-password_problem password confirm h = ground arith

create_pat_call-Asks : (name : String) → is_empty name ≡ false → Asks IsSound (create_pat_call name)
unfolding create_pat_call
create_pat_call-Asks name named = ground arith

create_pat-Asks : (valid : Bool) → Asks IsSound (create_pat valid)
unfolding create_pat
create_pat-Asks false = λ _. tt
create_pat-Asks true = λ _ s.
    let name = trim s.pat_name in
    Asks-if IsSound (is_empty name) _ _ (λ _ _. tt) (create_pat_call-Asks name)

change_password_call-Asks :
    (current password : String)
    → IsLong password
    → Asks IsSound (change_password_call current password)
unfolding change_password_call
change_password_call-Asks current password long = ground arith

on_submit-Asks : (valid : Bool) → Asks IsSound (on_submit valid)
unfolding on_submit
on_submit-Asks false = λ _. tt
on_submit-Asks true = λ _ s.
    let m = s.model in
    Asks-problem IsSound (password_problem m.password m.confirm) _ _ (λ _ _. tt)
      (λ fine.
        change_password_call-Asks m.current m.password
          (IsLong-password_problem m.password m.confirm fine))

profile_action-Asks : (number : String → ℕ) (a : Action) → Asks IsSound (profile_action number a)
unfolding profile_action load_profile load_pats on_expiry_change start_create_pat cancel_create_pat
    revoke_pat copy_secret dismiss_new_pat
profile_action-Asks number (creates_pat valid) = create_pat-Asks valid
profile_action-Asks number (submits_password valid) = on_submit-Asks valid
profile_action-Asks number a = ground arith

-- Whatever happens on the page, whatever its signals hold and whatever the server answers, every
-- new password that is sent has at least eight UTF-16 code units and every token is asked for with
-- a name that is not empty.
pub profile_action-sent :
    (number : String → ℕ) (srv : Server Call Reply) (s : Page) (w : srv.World) (a : Action)
    → All IsSound (sent srv (profile_action number a) s w)
profile_action-sent number srv s w a =
    sent-Asks IsSound srv (profile_action number a) (profile_action-Asks number a) s w
