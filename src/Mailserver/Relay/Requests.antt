-- ===== src/Mailserver/Relay/Requests.antt =====
-- The requests that the section on the relays sends.
use mailserver_ui.Common.{String, arith, All}
use mailserver_ui.Async.{Server}
use mailserver_ui.Async.Sent.{sent, Asks, sent-Asks}
use mailserver_ui.Api.{Call, Reply}
use mailserver_ui.Api.Sound.{IsSound}
use mailserver_ui.Mailserver.Relay.{
  Page, load, save_relay, on_create_relay, on_delete_relay, save_exclusion, on_add_exclusion,
  on_delete_exclusion,
}
use mailserver_ui.Mailserver.Relay.Flags.{
  Action, opens, creates_relay, deletes_relay, adds_exclusion, deletes_exclusion, relay_action,
}

relay_action-Asks : (lower : String → String) (a : Action) → Asks IsSound (relay_action lower a)
unfolding relay_action load save_relay on_create_relay on_delete_relay save_exclusion
    on_add_exclusion on_delete_exclusion
relay_action-Asks lower opens = ground arith
relay_action-Asks lower (creates_relay valid) = ground arith
relay_action-Asks lower (deletes_relay confirmed relay) = ground arith
relay_action-Asks lower (adds_exclusion valid) = ground arith
relay_action-Asks lower (deletes_exclusion confirmed exclusion) = ground arith

-- Whatever the user does in the section, whatever its form holds and whatever the server answers, a
-- relay that is sent has a port from 1 to 65535, and a relay or an exclusion that is sent is for a
-- text with an `@` in it.
pub relay_action-sent :
    (lower : String → String) (srv : Server Call Reply) (s : Page) (w : srv.World) (a : Action)
    → All IsSound (sent srv (relay_action lower a) s w)
relay_action-sent lower srv s w a =
    sent-Asks IsSound srv (relay_action lower a) (relay_action-Asks lower a) s w
