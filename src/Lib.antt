-- ===== src/Lib.antt =====
-- The user interface of a mail server: its session, its guards, its pages and the controls they
-- share. All paths are below frontend/src/app/.
--
-- The program is a single-page application. A page is a class whose state is a set of signals and
-- whose handlers are asynchronous: they change signals, wait for the answer of an API service, and
-- change signals again. The pages stand behind route guards that ask the session, and every answer
-- of the server passes the interceptor that notices an expired session.
--
-- How the code is read:
--   * Async: a handler is a `Task` over the signals of its page. `await` is a call of the server,
--     `try_catch` and `try_finally` are the statements, `par` is `Promise.all`. `run` executes a
--     task against a `Server`, a parameter that says what the server answers, how it changes, which
--     of two parallel calls it answers first, and how it changes on its own in between.
--     `await_both` is `Promise.all` over two calls, and Async.Parallel is about tasks in parallel that
--     write different signals. `run_schedule` of Async.Pool executes several handlers at once: a schedule says in which
--     order they start and in which order their answers arrive. `sent` of Async.Sent lists the calls
--     that a task makes, and Api.Sound says which of them the forms' checks let through.
--   * A form's validity (`submit` of the forms library) and the user's answer to a confirmation are
--     arguments of the handler. So are `toUpperCase`, `toLowerCase`, `localeCompare` and `Number`,
--     the order of texts by code units, the reading of a date, and the test whether one has passed.
--   * A string is a native string; `text_length` counts UTF-16 code units, as `length` does.
--     Numbers (ids, days, counts) are natural numbers; an index of -1 is `none`, and null is `none`.
--   * An object literal that is looked up by a text also finds the names that it inherits
--     (`is_inherited`): the rank of such a log level is NaN, and what the login page shows of such
--     an error is a parameter.
--
-- Which file models what:
--   * Models, Api: the models and services of accounts, groups, tokens, pending actions, mailboxes,
--     fail2ban and the mail server (core/auth.service.ts, core/users.service.ts, and so on, with their
--     .models.ts), each service as one constructor per method; settings and audit are outside.
--     Api.Requests and Api.MailserverRequests: the verb, path and body that each method sends;
--     `encode` is encodeURIComponent. Api.Json: the values that a body holds.
--   * Auth: `AuthService` of core/auth.service.ts (`refresh_session` is refreshSession, `sign_in`
--     is login) and roleGrants of core/auth.models.ts. Auth.Guards: core/auth.guard.ts and the
--     table of app.routes.ts. Auth.Expiry: core/session-expiry.interceptor.ts,
--     core/session-expiry.service.ts, shared/session-expired-modal/.
--   * Users: features/users/users.ts, in Users.State (signals, errors, onLogout), Users.Groups and
--     Users.Accounts (a handler per method; the part inside `submit` or `try` of a long one is a
--     function of its own, `_action` or `_call`).
--   * Mailboxes: features/mailboxes/mailboxes.ts, in Mailboxes.State and Mailboxes.Handlers.
--   * Profile: features/profile/profile.ts. Pending: core/pending-actions.service.ts and
--     shared/pending-actions-bell/.
--   * Fail2ban: features/fail2ban/fail2ban.ts. Fail2ban.Scan and Fail2ban.Log are the log: the line
--     pattern as a scanner, the comparison of columns, the filter. Fail2ban.State and
--     Fail2ban.Handlers are the page.
--   * Mailserver: features/mailserver/, in Mailserver.Texts (mailserver.utils.ts and the tests on
--     what was typed in), Mailserver.Relay, Mailserver.Restrictions, Mailserver.Queue,
--     Mailserver.Aliases, Mailserver.Rspamd, Mailserver.Postfix, Mailserver.Sieve,
--     Mailserver.Ldap and Mailserver.Spam. Where a handler is split, `save_...` is the part that
--     calls the server.
--   * Dashboard: features/dashboard/dashboard.ts; `load_all` is loadAll, `load_tile` is load. Views:
--     the computed signals.
--   * Login: features/login/login.ts.
--   * Theme: core/theme.service.ts. The browser's storage is a parameter (WebStorage); an effect runs
--     when Angular runs it, after any number of changes; timers are those that are pending.
--   * TableSort: shared/table-sort.ts, over any type of columns and rows.
--     MultiSelect: shared/user-multi-select/.
--   * Common: shared names, text and list functions. Tests: concrete pages and servers.
--
-- Bounds and termination: functions are structurally recursive and every task is finite. Only the
-- decimal digits of a number (`number_text`) are written on fuel, the number itself, which is at
-- least one less than the count of its digits. Quotas, passwords and lists have no bound.
--
-- Not modelled: focus, scrolling, labels, badges and placeholders; the router's matching, the
-- children of its routes and their redirects; the sections
-- on DKIM, DNS, Dovecot, the environment, logs and TLS; the settings, audit and about
-- pages; the share of the storage that the dashboard shows, which is
-- floating-point arithmetic; the backend, which is the server parameter.
pub mod Api
pub mod Async
pub mod Auth
pub mod Common
pub mod Dashboard
pub mod Fail2ban
pub mod Login
pub mod Mailboxes
pub mod Mailserver
pub mod Models
pub mod MultiSelect
pub mod Pending
pub mod Profile
pub mod TableSort
pub mod Tests
pub mod Theme
pub mod Users
