-- ===== src/Mailserver/Restrictions.antt =====
-- The section on blocked senders and recipients: restrictions/restrictions.ts.
use mailserver_ui.Common.{
  String, Bool, true, false, Option, none, some, List, [], if◌then◌else◌, ◌+++◌, trim, includes,
}
use mailserver_ui.Async.{Task, ◌>>=◌, ◌>>◌, try_catch, try_finally, await, modify, read, skip}
use mailserver_ui.Models.{Restriction, RestrictionKind, send, receive}
use mailserver_ui.Api.{
  Call, Reply, filtering, list_restrictions, add_restriction, delete_restriction,
}
use mailserver_ui.Api.MailserverRequests.{restriction_kind_text}
use mailserver_ui.Mailserver.Texts.{mailserver_error_message}
pub mod Flags
pub mod Requests
pub mod Overlap

pub record Page : Type 0 where
  pub kind : RestrictionKind
  pub restrictions : List Restriction
  pub loading : Bool
  pub error : Option String
  pub success : Option String
  pub adding : Bool
  pub deleting : Option String
  pub restriction_model : String

abbrev pub PageTask : Type 0
PageTask = Task Page Call Reply (Unit {0})

unfoldable pub load : PageTask
load = do
  modify (λ s. record s { loading = true; error = none })
  try_finally
      (try_catch
        (do
          s ← read
          found ← await (filtering (list_restrictions s.kind))
          modify (λ s. record s { restrictions = found }))
        (λ err. modify (λ s. record s { error = some "Unable to load the restrictions." })))
      (modify (λ s. record s { loading = false }))

-- `a === b`
abbrev pub same_kind : RestrictionKind → RestrictionKind → Bool
same_kind send send = true
same_kind receive receive = true
same_kind a b = false

-- The load is started, not awaited: it is the last thing the handler does.
unfoldable pub set_kind : RestrictionKind → PageTask
unfolding load
set_kind kind = do
  s ← read
  if same_kind s.kind kind
      then skip
      else (do modify (λ s. record s { kind = kind; success = none }); load)

unfoldable pub save_restriction : RestrictionKind → String → PageTask
unfolding load
save_restriction kind address =
    try_finally
      (try_catch
        (do
          _ ← await (filtering (add_restriction kind address))
          modify (λ s. record s {
            success = some (address +++ " restricted.");
            restriction_model = "";
          })
          load)
        (λ err. modify (λ s. record s { error = some (mailserver_error_message err) })))
      (modify (λ s. record s { adding = false }))

unfoldable pub on_add : (String → String) → Bool → PageTask
unfolding save_restriction
on_add lower valid = do
  modify (λ s. record s { error = none; success = none })
  if valid
      then (do
        s ← read
        let address = lower (trim s.restriction_model)
        if includes address "@"
            then (do
              modify (λ s. record s { adding = true })
              t ← read
              save_restriction t.kind address)
            else modify (λ s. record s {
              error = some "The target must be an address or a domain (@example.com).";
            }))
      else skip

unfoldable pub on_delete : Bool → Restriction → PageTask
unfolding load
on_delete confirmed restriction =
    if confirmed
    then (do
      modify (λ s. record s { error = none; success = none; deleting = some restriction.address })
      try_finally
          (try_catch
            (do
              _ ← await (filtering (delete_restriction restriction.kind restriction.address))
              modify (λ s. record s { success = some (restriction.address +++ " removed.") })
              load)
            (λ err. modify (λ s. record s { error = some (mailserver_error_message err) })))
          (modify (λ s. record s { deleting = none })))
    else skip
