-- ===== src/Mailserver/Restrictions/Requests.antt =====
-- The requests that the section on restrictions sends.
use mailserver_ui.Common.{String, arith, All}
use mailserver_ui.Async.{Server}
use mailserver_ui.Async.Sent.{sent, Asks, sent-Asks}
use mailserver_ui.Api.{Call, Reply}
use mailserver_ui.Api.Sound.{IsSound}
use mailserver_ui.Mailserver.Restrictions.{
  Page, load, set_kind, save_restriction, on_add, on_delete,
}
use mailserver_ui.Mailserver.Restrictions.Flags.{
  Action, opens, chooses, adds, deletes, restrictions_action,
}

restrictions_action-Asks :
    (lower : String → String) (a : Action) → Asks IsSound (restrictions_action lower a)
unfolding restrictions_action load set_kind save_restriction on_add on_delete
restrictions_action-Asks lower opens = ground arith
restrictions_action-Asks lower (chooses kind) = ground arith
restrictions_action-Asks lower (adds valid) = ground arith
restrictions_action-Asks lower (deletes confirmed restriction) = ground arith

-- Whatever the user does in the section and whatever the server answers, a restriction that is sent
-- is for a text with an `@` in it.
pub restrictions_action-sent :
    (lower : String → String) (srv : Server Call Reply) (s : Page) (w : srv.World) (a : Action)
    → All IsSound (sent srv (restrictions_action lower a) s w)
restrictions_action-sent lower srv s w a =
    sent-Asks IsSound srv (restrictions_action lower a) (restrictions_action-Asks lower a) s w
