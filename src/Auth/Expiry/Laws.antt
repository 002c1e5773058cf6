-- ===== src/Auth/Expiry/Laws.antt =====
-- When the flag of an expired session is raised, and that the dialog lowers it.
use text.Mathlib.TextBridge.{IsPrefix}
use text.Mathlib.TextEquality.{starts_with_iff}
use text.Mathlib.Text.{starts_with}
use mailserver_ui.Common.{
  String, Bool, true, false, Option, none, ◌≡◌, ◌↔◌, ◌⊎◌, inl, inr, Bool-cases, arith,
}
use mailserver_ui.Async.{Result, ok, err, http, other, Server, run}
use mailserver_ui.Api.{Call, Reply}
use mailserver_ui.Auth.Expiry.{is_ignored, intercept, Shell, on_sign_in}

-- The address is at none of the endpoints by which a visitor signs in or out.
abbrev pub IsProtected : String → Type 0
IsProtected url =
    (¬ IsPrefix "/api/auth/login" url)
    × (¬ IsPrefix "/api/auth/me" url)
    × (¬ IsPrefix "/api/auth/config" url)
    × (¬ IsPrefix "/api/auth/logout" url)

-- The server answers 401 to a request for a protected address.
abbrev pub IsRejected : {A : Type 0} → String → Result A → Type 0
IsRejected url r = ((detail : Option String) × (r ≡ err (http 401 detail))) × IsProtected url

starts_with-none : (s t : String) → (starts_with s t ≡ false) ↔ (¬ IsPrefix t s)
starts_with-none s t = (
  λ apart p. ground (arith, (starts_with_iff s t).1 p),
  λ apart. elim (Bool-cases (starts_with s t)) [
    | inl begins ↦ absurd (apart ((starts_with_iff s t).0 begins))
    | inr free ↦ free
  ],
)

is_ignored-none_iff : (url : String) → (is_ignored url ≡ false) ↔ IsProtected url
unfolding is_ignored
is_ignored-none_iff url = ground (
  arith,
  starts_with-none url "/api/auth/login",
  starts_with-none url "/api/auth/me",
  starts_with-none url "/api/auth/config",
  starts_with-none url "/api/auth/logout",
)

-- After a response the flag is raised exactly if it was raised before or the server answered 401 to
-- a request for an address that begins with none of the four endpoints of signing in and out; and
-- the caller receives the response as it is.
pub intercept_iff :
    {A : Type 0} (url : String) (r : Result A) (expired : Bool)
    → (((intercept url r expired).0 ≡ true) ↔ ((expired ≡ true) ⊎ IsRejected url r))
      × ((intercept url r expired).1 ≡ r)
unfolding intercept
intercept_iff url (ok a) expired = ground arith
intercept_iff url (err other) expired = ground arith
intercept_iff url (err (http status detail)) expired = ground (arith, is_ignored-none_iff url)

-- The dialog's only action always ends with the flag lowered, the button idle and nobody signed
-- in, even if signing out or the navigation fails.
pub on_sign_in-clears :
    (srv : Server Call Reply) (s : Shell) (w : srv.World)
    → let s' = (run srv on_sign_in s w).1 in
      (s'.expired ≡ false) × (s'.signing_in ≡ false) × (s'.session.user ≡ none)
unfolding run on_sign_in
on_sign_in-clears srv s w = ground arith
