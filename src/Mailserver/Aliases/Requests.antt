-- ===== src/Mailserver/Aliases/Requests.antt =====
-- The requests that the section on the aliases sends.
use mailserver_ui.Common.{String, arith, All}
use mailserver_ui.Async.{Server}
use mailserver_ui.Async.Sent.{sent, Asks, sent-Asks}
use mailserver_ui.Api.{Call, Reply}
use mailserver_ui.Api.Sound.{IsSound}
use mailserver_ui.Mailserver.Aliases.{
  Page, load, save_system_alias, on_add_system_alias, on_delete_system_alias, save_regex_alias,
  on_add_regex_alias, on_delete_regex_alias,
}
use mailserver_ui.Mailserver.Aliases.Flags.{
  Action, opens, adds_system, deletes_system, adds_regex, deletes_regex, aliases_action,
}

aliases_action-Asks : (lower : String → String) (a : Action) → Asks IsSound (aliases_action lower a)
unfolding aliases_action load save_system_alias on_add_system_alias on_delete_system_alias
    save_regex_alias on_add_regex_alias on_delete_regex_alias
aliases_action-Asks lower opens = ground arith
aliases_action-Asks lower (adds_system valid) = ground arith
aliases_action-Asks lower (deletes_system confirmed alias) = ground arith
aliases_action-Asks lower (adds_regex valid) = ground arith
aliases_action-Asks lower (deletes_regex confirmed alias) = ground arith

-- Whatever the user does in the section and whatever the server answers, an alias that is sent has a
-- destination, the name of a system alias has no `@` in it, and the pattern of a regex alias is a
-- regular expression between slashes.
pub aliases_action-sent :
    (lower : String → String) (srv : Server Call Reply) (s : Page) (w : srv.World) (a : Action)
    → All IsSound (sent srv (aliases_action lower a) s w)
aliases_action-sent lower srv s w a =
    sent-Asks IsSound srv (aliases_action lower a) (aliases_action-Asks lower a) s w
