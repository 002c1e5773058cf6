-- ===== src/Users/Overlap.antt =====
-- Group panels opened faster than the server answers.
use mailserver_ui.Common.{ℕ, false, none, some, List, [], ◌∷◌, ◌≡◌, arith, ◌==◌}
use mailserver_ui.Async.{Result, ok}
use mailserver_ui.Async.Pool.{Event, start, answer, run_schedule}
use mailserver_ui.Models.{User}
use mailserver_ui.Api.{Call, Reply, groups, get_members}
use mailserver_ui.Users.State.{Page}
use mailserver_ui.Users.Groups.{start_editing_group}

-- The members of group `a` are opened, then those of `b`; the answer for `b` arrives first.
abbrev pub late_members : ℕ → ℕ → List (Event Page Call Reply)
late_members a b =
    start (start_editing_group a) ∷ start (start_editing_group b) ∷ answer 1 ∷ answer 0 ∷ []

-- An answer that arrives late is shown under the wrong group: with the panel of `b` open, the page
-- lists the members of `a`, whose panel was opened before, and shows no error.
pub late_members_mix :
    (reply : (q : Call) → Result (Reply q)) (s : Page) (a b : ℕ) (ma mb : List User)
    → s.editing_group_id ≡ none
    → (a == b) ≡ false
    → reply (groups (get_members a)) ≡ ok ma
    → reply (groups (get_members b)) ≡ ok mb
    → let s' = (run_schedule reply (late_members a b) [] s).0 in
      (s'.editing_group_id ≡ some b) × (s'.group_members ≡ ma) × (s'.members_error ≡ none)
unfolding run_schedule start_editing_group
late_members_mix reply s a b ma mb closed differ p q = ground arith
