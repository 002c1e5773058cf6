-- ===== src/Mailboxes/Requests.antt =====
-- The requests that the page sends.
use mailserver_ui.Common.{
  or_null, String, Bool, true, false, none, ◌≡◌, arith, is_empty, trim, Bool-cases, inl, inr, All,
}
use mailserver_ui.Async.{Server, skip}
use mailserver_ui.Async.Sent.{sent, Asks, Asks-if, Asks-problem, Asks-value, sent-Asks}
use mailserver_ui.Models.{Mailbox}
use mailserver_ui.Api.{Call, Reply}
use mailserver_ui.Api.Sound.{IsSound, IsLong, IsQuotaOrNone}
use mailserver_ui.Mailboxes.State.{Page, PageTask}
use mailserver_ui.Mailboxes.Handlers.{
  with_managed, is_bad_quota, password_problem, create_problem, create_call, on_create,
  toggle_manage, reset_password_call, on_reset_password, set_quota_call, on_save_quota,
  on_add_alias, on_remove_alias, on_save_sieve, on_remove_sieve, on_delete, load_mailboxes,
  load_features, on_sieve_input, on_quota_input, on_logout,
}
use mailserver_ui.Mailboxes.Quota.{is_quota_iff}
use mailserver_ui.Mailboxes.Flags.{
  Action, creates, manages, resets_password, saves_quota, adds_alias, removes_alias, saves_sieve,
  removes_sieve, deletes, mailboxes_action, types_sieve, types_quota, opens_mailboxes,
  opens_features, logs_out,
}

IsQuotaOrNone-or_null : (q : String) → is_bad_quota q ≡ false → IsQuotaOrNone (or_null q)
IsQuotaOrNone-or_null q h = elim (Bool-cases (is_empty q)) [
  | inl e ↦ rw e tt
  | inr f ↦ rw f ((is_quota_iff q).0 (ground arith))
]

IsLong-password_problem :
    (password confirm : String) → password_problem password confirm ≡ none → IsLong password
unfolding password_problem
IsLong-password_problem password confirm h = ground arith

create_call-Asks :
    (address password quota : String)
    → IsLong password
    → is_bad_quota quota ≡ false
    → Asks IsSound (create_call address password quota)
unfolding create_call
create_call-Asks address password quota long good = ground (arith, IsQuotaOrNone-or_null quota good)

create_problem-none :
    (password confirm quota : String)
    → create_problem password confirm quota ≡ none
    → IsLong password × (is_bad_quota quota ≡ false)
unfolding create_problem
create_problem-none password confirm quota h =
    ground (arith, IsLong-password_problem password confirm)

with_managed-Asks :
    (body : String → PageTask)
    → ((email : String) → Asks IsSound (body email))
    → Asks IsSound (with_managed body)
with_managed-Asks body h = λ s.
    Asks-value IsSound s.managing_email _ _
      (λ email. Asks-if IsSound (is_empty email) skip (body email) (λ _. tt) (λ _. h email)) tt

on_create-Asks :
    (upper lower : String → String) (valid : Bool) → Asks IsSound (on_create upper lower valid)
unfolding on_create create_problem
on_create-Asks upper lower false = λ _. tt
on_create-Asks upper lower true = λ _ s.
    let m = s.create_model in
    let quota = upper (trim m.quota) in
    Asks-problem IsSound (create_problem m.password m.confirm quota) _ _ (λ _ _. tt)
      (λ fine.
        let (long, good) = create_problem-none m.password m.confirm quota fine in
        create_call-Asks (lower (trim m.email)) m.password quota long good)

reset_password_call-Asks :
    (email password : String) → IsLong password → Asks IsSound (reset_password_call email password)
unfolding reset_password_call
reset_password_call-Asks email password long = ground arith

set_quota_call-Asks :
    (email quota : String) → is_bad_quota quota ≡ false → Asks IsSound (set_quota_call email quota)
unfolding set_quota_call
set_quota_call-Asks email quota good = ground (arith, IsQuotaOrNone-or_null quota good)

on_reset_password-Asks : (valid : Bool) → Asks IsSound (on_reset_password valid)
unfolding on_reset_password
on_reset_password-Asks false = λ _. tt
on_reset_password-Asks true = λ _. with_managed-Asks _ (λ email s.
    let m = s.pw_model in
    Asks-problem IsSound (password_problem m.password m.confirm) _ _ (λ _ _. tt)
      (λ fine.
        reset_password_call-Asks email m.password
          (IsLong-password_problem m.password m.confirm fine)))

on_save_quota-Asks : (upper : String → String) → Asks IsSound (on_save_quota upper)
unfolding on_save_quota
on_save_quota-Asks upper = with_managed-Asks _ (λ email s.
    let quota = upper (trim s.quota_value) in
    Asks-if IsSound (is_bad_quota quota) _ _ (λ _ _. tt)
      (λ good. set_quota_call-Asks email quota good))

toggle_manage-Asks : (m : Mailbox) → Asks IsSound (toggle_manage m)
unfolding toggle_manage
toggle_manage-Asks m = ground arith

on_add_alias-Asks :
    (lower : String → String) (valid : Bool) → Asks IsSound (on_add_alias lower valid)
unfolding on_add_alias
on_add_alias-Asks lower valid = ground arith

on_remove_alias-Asks : (alias : String) → Asks IsSound (on_remove_alias alias)
unfolding on_remove_alias
on_remove_alias-Asks alias = ground arith

on_save_sieve-Asks : Asks IsSound (on_save_sieve)
unfolding on_save_sieve
on_save_sieve-Asks = ground arith

on_remove_sieve-Asks : (confirmed : Bool) → Asks IsSound (on_remove_sieve confirmed)
unfolding on_remove_sieve
on_remove_sieve-Asks confirmed = ground arith

on_delete-Asks : (confirmed : Bool) (m : Mailbox) → Asks IsSound (on_delete confirmed m)
unfolding on_delete
on_delete-Asks confirmed m = ground arith

mailboxes_action-Asks :
    (upper lower : String → String) (a : Action) → Asks IsSound (mailboxes_action upper lower a)
unfolding mailboxes_action load_mailboxes load_features on_sieve_input on_quota_input on_logout
mailboxes_action-Asks upper lower (creates valid) = on_create-Asks upper lower valid
mailboxes_action-Asks upper lower (manages m) = toggle_manage-Asks m
mailboxes_action-Asks upper lower (resets_password valid) = on_reset_password-Asks valid
mailboxes_action-Asks upper lower saves_quota = on_save_quota-Asks upper
mailboxes_action-Asks upper lower (adds_alias valid) = on_add_alias-Asks lower valid
mailboxes_action-Asks upper lower (removes_alias alias) = on_remove_alias-Asks alias
mailboxes_action-Asks upper lower saves_sieve = on_save_sieve-Asks
mailboxes_action-Asks upper lower (removes_sieve confirmed) = on_remove_sieve-Asks confirmed
mailboxes_action-Asks upper lower (deletes confirmed m) = on_delete-Asks confirmed m
mailboxes_action-Asks upper lower (types_sieve value) = λ _. tt
mailboxes_action-Asks upper lower (types_quota value) = λ _. tt
mailboxes_action-Asks upper lower opens_mailboxes = ground arith
mailboxes_action-Asks upper lower opens_features = ground arith
mailboxes_action-Asks upper lower logs_out = ground arith

-- Whatever the user does on the page, whatever its signals hold and whatever the server answers,
-- every request that creates a mailbox or changes its password carries a password of at least
-- eight UTF-16 code units, and every quota that is sent is of the format or none.
pub mailboxes_action-sent :
    (upper lower : String → String) (srv : Server Call Reply) (s : Page) (w : srv.World)
    (a : Action)
    → All IsSound (sent srv (mailboxes_action upper lower a) s w)
mailboxes_action-sent upper lower srv s w a =
    sent-Asks IsSound srv (mailboxes_action upper lower a) (mailboxes_action-Asks upper lower a) s w
