-- ===== src/Mailserver/Relay.antt =====
-- The section on the SMTP relays: relay/relay.ts.
use mailserver_ui.Common.{
  ℕ, String, Bool, true, false, Option, none, some, List, [], ◌&&◌, if◌then◌else◌, ◌+++◌, trim,
  includes, or_null, leb,
}
use mailserver_ui.Async.{
  Task, ◌>>=◌, ◌>>◌, try_catch, try_finally, await, await_both, modify, read, skip,
}
use mailserver_ui.Models.{RelayHost, RelayExclusion, RelayHostCreateRequest}
use mailserver_ui.Api.{
  Call, Reply, routing, list_relays, list_relay_exclusions, create_relay, delete_relay,
  create_relay_exclusion, delete_relay_exclusion,
}
use mailserver_ui.Mailserver.Texts.{mailserver_error_message}
pub mod Flags
pub mod Requests

-- The port is what `Number` makes of the field; `none` is anything but a whole number that is not
-- negative.
pub record RelayModel : Type 0 where
  pub sender : String
  pub host : String
  pub port : Option ℕ
  pub username : String
  pub password : String

pub record Page : Type 0 where
  pub relays : List RelayHost
  pub exclusions : List RelayExclusion
  pub loading : Bool
  pub error : Option String
  pub success : Option String
  pub creating_relay : Bool
  pub create_relay_error : Option String
  pub deleting_sender : Option String
  pub relay_model : RelayModel
  pub adding_exclusion : Bool
  pub deleting_exclusion : Option String
  pub exclusion_model : String

abbrev pub PageTask : Type 0
PageTask = Task Page Call Reply (Unit {0})

abbrev pub empty_relay : RelayModel
empty_relay = record { sender = ""; host = ""; port = some 587; username = ""; password = "" }

unfoldable pub load : PageTask
load = do
  modify (λ s. record s { loading = true; error = none })
  try_finally
      (try_catch
        (do
          (relays, exclusions) ← await_both (routing list_relays) (routing list_relay_exclusions)
          modify (λ s. record s { relays = relays; exclusions = exclusions }))
        (λ err. modify (λ s. record s { error = some "Unable to load the SMTP relays." })))
      (modify (λ s. record s { loading = false }))

abbrev pub is_port : Option ℕ → Bool
is_port none = false
is_port (some n) = leb 1 n && leb n 65535

abbrev pub port_number : Option ℕ → ℕ
port_number none = 0
port_number (some n) = n

unfoldable pub save_relay : RelayHostCreateRequest → PageTask
unfolding load
save_relay body = do
  modify (λ s. record s { creating_relay = true })
  try_finally
      (try_catch
        (do
          _ ← await (routing (create_relay body))
          modify (λ s. record s {
            success = some ("Relay for " +++ body.sender +++ " saved.");
            relay_model = empty_relay;
          })
          load)
        (λ err.
          modify (λ s. record s { create_relay_error = some (mailserver_error_message err) })))
      (modify (λ s. record s { creating_relay = false }))

-- `lower` is `toLowerCase`, `valid` what the validators of the form say.
unfoldable pub on_create_relay : (String → String) → Bool → PageTask
on_create_relay lower valid = do
  modify (λ s. record s { create_relay_error = none; success = none })
  if valid
      then (do
        s ← read
        let m = s.relay_model
        let sender = lower (trim m.sender)
        if includes sender "@"
            then (if is_port m.port
                then save_relay (record {
                  sender = sender;
                  host = trim m.host;
                  port = port_number m.port;
                  username = or_null (trim m.username);
                  password = or_null m.password;
                })
                else modify (λ s. record s {
                  create_relay_error = some "The port must be between 1 and 65535.";
                }))
            else modify (λ s. record s {
              create_relay_error = some "The sender must be a domain (e.g. @example.com).";
            }))
      else skip

unfoldable pub on_delete_relay : Bool → RelayHost → PageTask
unfolding load
on_delete_relay confirmed relay =
    if confirmed
    then (do
      modify (λ s. record s { error = none; success = none; deleting_sender = some relay.sender })
      try_finally
          (try_catch
            (do
              _ ← await (routing (delete_relay relay.sender))
              modify
                  (λ s. record s { success = some ("Relay for " +++ relay.sender +++ " deleted.") })
              load)
            (λ err. modify (λ s. record s { error = some (mailserver_error_message err) })))
          (modify (λ s. record s { deleting_sender = none })))
    else skip

unfoldable pub save_exclusion : String → PageTask
unfolding load
save_exclusion sender = do
  modify (λ s. record s { adding_exclusion = true })
  try_finally
      (try_catch
        (do
          _ ← await (routing (create_relay_exclusion sender))
          modify (λ s. record s {
            success = some (sender +++ " will no longer use the global relay.");
            exclusion_model = "";
          })
          load)
        (λ err. modify (λ s. record s { error = some (mailserver_error_message err) })))
      (modify (λ s. record s { adding_exclusion = false }))

unfoldable pub on_add_exclusion : (String → String) → Bool → PageTask
on_add_exclusion lower valid = do
  modify (λ s. record s { error = none; success = none })
  if valid
      then (do
        s ← read
        let sender = lower (trim s.exclusion_model)
        if includes sender "@"
            then save_exclusion sender
            else modify
                (λ s. record s { error = some "The sender must be a domain (e.g. @example.com)." }))
      else skip

unfoldable pub on_delete_exclusion : Bool → RelayExclusion → PageTask
unfolding load
on_delete_exclusion confirmed exclusion =
    if confirmed
    then (do
      modify (λ s. record s {
        error = none;
        success = none;
        deleting_exclusion = some exclusion.sender;
      })
      try_finally
          (try_catch
            (do
              _ ← await (routing (delete_relay_exclusion exclusion.sender))
              modify (λ s. record s {
                success = some ("Exclusion for " +++ exclusion.sender +++ " removed.");
              })
              load)
            (λ err. modify (λ s. record s { error = some (mailserver_error_message err) })))
          (modify (λ s. record s { deleting_exclusion = none })))
    else skip
