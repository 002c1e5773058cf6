-- ===== src/Auth/Session.antt =====
-- What the operations of `AuthService` leave behind, for every answer of the server.
use mailserver_ui.Common.{true, Option, none, some, ◌≡◌, arith}
use mailserver_ui.Async.{Result, ok, err, Server, run}
use mailserver_ui.Models.{SessionUser, LoginRequest}
use mailserver_ui.Api.{Call, Reply, auth, AuthCall, login}
use mailserver_ui.Auth.{AuthState, refresh_session, sign_in, logout}

-- The user that an answer of `/api/auth/me` shows.
abbrev pub answered : Result SessionUser → Option SessionUser
answered (ok u) = some u
answered (err e) = none

-- The signals after an answer to `login`.
abbrev pub signed : AuthState → Result SessionUser → AuthState
signed s (ok u) = record s { user = some u }
signed s (err e) = s

module _ (srv : Server Call Reply) (s : AuthState) (w : srv.World) where
  open srv use {reply, after}

  -- Probing the session never fails: whatever the server answers, the user signal becomes the user
  -- of the answer, or null if the call failed, which is also the result; the session then counts as
  -- loaded, and the configuration is kept.
  pub refresh_session-eq : run srv refresh_session s w ≡ (
    ok (answered (reply w (auth AuthCall.me))),
    record s { user = answered (reply w (auth AuthCall.me)); loaded = true },
    after w (auth AuthCall.me),
  )
  unfolding run refresh_session
  refresh_session-eq = ground arith

  -- Signing out drops the user whatever the server answers, keeps the other signals, and its
  -- result is the server's: a failure reaches the caller.
  pub logout-eq :
      run srv logout s w
      ≡ (reply w (auth AuthCall.logout), record s { user = none }, after w (auth AuthCall.logout))
  unfolding run logout
  logout-eq = ground arith

  -- Signing in keeps the user signal in step with the server: the user of a successful answer is
  -- shown, a refused attempt changes no signal, and the caller receives the answer.
  pub sign_in-eq :
      (credentials : LoginRequest)
      → run srv (sign_in credentials) s w ≡ (
        reply w (auth (login credentials)),
        signed s (reply w (auth (login credentials))),
        after w (auth (login credentials)),
      )
  unfolding run sign_in
  sign_in-eq credentials = ground arith
