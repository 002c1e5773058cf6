-- ===== src/Auth/Guards/Laws.antt =====
-- What the guards decide, and that their redirections settle.
use mailserver_ui.Common.{
  String, refl, ap, ◌∙◌, true, Option, none, some, ◌≡◌, ◌≢◌, ◌↔◌, ◌⊎◌, arith, if◌then◌else◌,
}
use mailserver_ui.Async.{ok, Server, run}
use mailserver_ui.Models.{Role, guest, mailbox_manager, admin, SessionUser}
use mailserver_ui.Api.{Call, Reply, auth, AuthCall}
use mailserver_ui.Auth.{AuthState, role_grants}
use mailserver_ui.Auth.Session.{answered}
use mailserver_ui.Auth.Guards.{
  Decision, allow, redirect, Guard, for_user, for_guest, for_admin, for_mailbox_manager, run_guard,
  guard_of, guarded_routes,
}

abbrev pub Holds : (SessionUser → Type 0) → Option SessionUser → Type 0
Holds P none = ⊥
Holds P (some u) = P u

-- Who may open a route, by the role of the user, if any.
abbrev pub Admits : Guard → Option SessionUser → Type 0
Admits for_user u = u ≢ none
Admits for_guest u = u ≡ none
Admits for_admin u = Holds (λ x. x.role ≡ admin) u
Admits for_mailbox_manager u = Holds (λ x. x.role ≢ guest) u

-- Where a visitor who may not is sent.
abbrev pub elsewhere : Option SessionUser → String
elsewhere none = "/login"
elsewhere (some u) = "/dashboard"

role_decision : Role → Role → Decision
role_decision role required =
    if role_grants (some role) required then allow else redirect "/dashboard"

-- What a guard answers once the user is known.
decide : Guard → Option SessionUser → Decision
unfolding role_decision
decide for_user none = redirect "/login"
decide for_user (some u) = allow
decide for_guest none = allow
decide for_guest (some u) = redirect "/dashboard"
decide for_admin none = redirect "/login"
decide for_admin (some u) = role_decision u.role admin
decide for_mailbox_manager none = redirect "/login"
decide for_mailbox_manager (some u) = role_decision u.role mailbox_manager

decide-allow_iff : (g : Guard) (u : Option SessionUser) → (decide g u ≡ allow) ↔ Admits g u
unfolding decide role_grants
decide-allow_iff for_user none = ground arith
decide-allow_iff for_guest none = ground arith
decide-allow_iff for_admin none = ground arith
decide-allow_iff for_mailbox_manager none = ground arith
decide-allow_iff g (some u) = ground arith

decide_cases :
    (g : Guard) (u : Option SessionUser)
    → (decide g u ≡ allow) ⊎ (decide g u ≡ redirect (elsewhere u))
unfolding decide role_grants
decide_cases for_user none = ground arith
decide_cases g u = ground arith

module _ (srv : Server Call Reply) (s : AuthState) (w : srv.World) where
  open srv use {World, reply, after}

  -- The user that decides: the known one, or the probed one if no probe was made before.
  abbrev pub seen : Option SessionUser
  seen = if s.loaded then s.user else answered (reply w (auth AuthCall.me))

  -- The signals once the guard is done.
  abbrev pub probed : AuthState
  probed = record s { user = seen; loaded = true }

  abbrev pub asked : World
  asked = if s.loaded then w else after w (auth AuthCall.me)

  run_guard-decide : (g : Guard) → run srv (run_guard g) s w ≡ (ok (decide g seen), probed, asked)
  unfolding run run_guard decide
  run_guard-decide for_user = ground arith
  run_guard-decide g = ground arith

  -- A guard admits exactly whom its route is for: anyone signed in, nobody signed in, an
  -- administrator, or a manager or administrator.
  pub run_guard-allow_iff : (g : Guard) → ((run srv (run_guard g) s w).0 ≡ ok allow) ↔ Admits g seen
  run_guard-allow_iff g = ground (arith, run_guard-decide g, decide-allow_iff g seen)

  -- Whatever the guard, the session is probed only if it was not yet, and a visitor who is not
  -- admitted is sent to the login page if signed out, and to the dashboard if signed in.
  pub run_guard-eq :
      (g : Guard)
      → (d : Decision) × (run srv (run_guard g) s w ≡ (ok d, probed, asked))
        × ((d ≡ allow) ⊎ (d ≡ redirect (elsewhere seen)))
  run_guard-eq g = (decide g seen, run_guard-decide g, decide_cases g seen)

home : Option SessionUser → Guard
home none = for_guest
home (some u) = for_user

guard_of-elsewhere :
    (u : Option SessionUser) → guard_of (elsewhere u) guarded_routes ≡ some (home u)
unfolding guard_of home
guard_of-elsewhere none = refl
guard_of-elsewhere (some u) = refl

decide-home : (u : Option SessionUser) → decide (home u) u ≡ allow
unfolding decide home
decide-home none = refl
decide-home (some u) = refl

-- A redirection settles at once: the path that a guard answers with is a route of the table, whose
-- own guard then admits the visitor.
pub run_guard-redirect :
    (srv : Server Call Reply) (s : AuthState) (w : srv.World) (g : Guard) (p : String)
    → (run srv (run_guard g) s w).0 ≡ ok (redirect p)
    → (h : Guard) × (guard_of p guarded_routes ≡ some h)
      × ((run srv (run_guard h) (probed srv s w) (asked srv s w)).0 ≡ ok allow)
run_guard-redirect srv s w g p e =
    let u = seen srv s w in
    let here : p ≡ elsewhere u = ground (arith, run_guard-decide srv s w g, decide_cases g u) in
    (
      home u,
      rw here (guard_of-elsewhere u),
      ap (λ r. r.0) (run_guard-decide srv (probed srv s w) (asked srv s w) (home u))
          ∙ ap ok (decide-home u),
    )
