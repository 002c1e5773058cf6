-- ===== src/Tests/Users.antt =====
-- The users page.
use mailserver_ui.Common.{String, All, true, false, none, some, [], ◌∷◌, ◌≡◌, refl, text_length}
use mailserver_ui.Async.{ok, other, run}
use mailserver_ui.Async.Pool.{run_schedule}
use mailserver_ui.Users.State.{empty_user_model}
use mailserver_ui.Users.Accounts.{password_problem, create_user, delete_user}
use mailserver_ui.Users.Flags.{
  IsIdle, creates_user, deletes_user, users_action, users_action-IsIdle,
}
use mailserver_ui.Users.Reloads.{
  create_user_created, Explains, change, creates, without_spinner, with_message, change_refused,
  delete_user_reloads,
}
use mailserver_ui.Users.Overlap.{late_members, late_members_mix}
use mailserver_ui.Tests.Data.{server, broken, answers, account, staff, users_page}
use mailserver_ui.Users.Requests.{users_action-sent}
use mailserver_ui.Async.Sent.{sent}
use mailserver_ui.Api.Sound.{IsSound}

users_action-IsIdle_example :
    ((run broken (users_action (deletes_user true (account 1 "bob"))) users_page 0).0 ≡ ok tt)
    × IsIdle (run broken (users_action (deletes_user true (account 1 "bob"))) users_page 0).1
users_action-IsIdle_example =
    users_action-IsIdle broken users_page 0 refl (deletes_user true (account 1 "bob"))

create_user_created_example :
    let s' = (run server (create_user true) users_page 0).1 in
    (s'.users ≡ account 1 "bob" ∷ [])
    × (s'.show_user_form ≡ false)
    × (s'.user_model ≡ empty_user_model)
    × (s'.user_creation_error ≡ none)
unfolding password_problem text_length
create_user_created_example =
    create_user_created server users_page 0 refl (account 1 "bob") (account 1 "bob" ∷ []) refl refl

change_refused_example :
    (text : String) × Explains other "Unable to create the user." text
    × (run broken (change creates) users_page 0
        ≡ (ok tt, without_spinner (with_message users_page creates (some text)) creates, 1))
unfolding password_problem text_length
change_refused_example = change_refused broken users_page 0 creates other refl refl

delete_user_reloads_example :
    let s' = (run server (delete_user true (account 1 "bob")) users_page 0).1 in
    (s'.users ≡ account 1 "bob" ∷ [])
    × (s'.groups ≡ staff ∷ [])
    × (s'.load_error ≡ none)
    × (s'.editing_id ≡ none)
delete_user_reloads_example =
    delete_user_reloads server users_page 0 (account 1 "bob") (account 1 "bob" ∷ []) (staff ∷ [])
      refl (λ v. refl) (λ v. refl)

late_members_mix_example :
    let s' = (run_schedule answers (late_members 0 1) [] users_page).0 in
    (s'.editing_group_id ≡ some 1)
    × (s'.group_members ≡ account 1 "bob" ∷ [])
    × (s'.members_error ≡ none)
late_members_mix_example =
    late_members_mix answers users_page 0 1 (account 1 "bob" ∷ []) (account 2 "eve" ∷ []) refl refl
      refl refl

users_action-sent_example :
    All IsSound (sent server (users_action (creates_user true)) users_page 0)
users_action-sent_example = users_action-sent server users_page 0 (creates_user true)
