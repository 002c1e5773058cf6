-- ===== src/Mailboxes/State.antt =====
-- The signals of the page, its quota format and its error messages.
use mailserver_ui.Common.{
  Char, code, String, Bool, true, false, Option, List, ◌&&◌, ◌||◌, if◌then◌else◌, ◌==◌, leb,
  is_empty,
}
use mailserver_ui.Async.{Failure, http, other, Task}
use mailserver_ui.Models.{Mailbox, Alias}
use mailserver_ui.Api.{Call, Reply}
use mailserver_ui.Auth.{AuthState}

pub record CreateModel : Type 0 where
  pub email : String
  pub password : String
  pub confirm : String
  pub quota : String

abbrev pub empty_create_model : CreateModel
empty_create_model = record { email = ""; password = ""; confirm = ""; quota = "" }

pub record PwModel : Type 0 where
  pub password : String
  pub confirm : String

abbrev pub empty_pw_model : PwModel
empty_pw_model = record { password = ""; confirm = "" }

pub record Page : Type 0 where
  pub session : AuthState
  pub mailboxes : List Mailbox
  pub loading : Bool
  pub load_error : Option String
  pub logging_out : Bool
  pub quotas_enabled : Bool
  pub success_message : Option String
  pub creating : Bool
  pub create_error : Option String
  pub create_model : CreateModel
  pub managing_email : Option String
  pub saving : Bool
  pub form_error : Option String
  pub pw_model : PwModel
  pub quota_value : String
  pub saving_quota : Bool
  pub quota_error : Option String
  pub aliases : List Alias
  pub aliases_loading : Bool
  pub alias_error : Option String
  pub adding_alias : Bool
  pub removing_alias : Option String
  pub alias_model : String
  pub sieve_content : String
  pub sieve_configured : Bool
  pub sieve_loading : Bool
  pub saving_sieve : Bool
  pub removing_sieve : Bool
  pub sieve_error : Option String
  pub deleting_email : Option String

abbrev pub PageTask : Type 0
PageTask = Task Page Call Reply (Unit {0})

abbrev pub is_digit : Char → Bool
is_digit c = leb b'0' (code c) && leb (code c) b'9'

abbrev pub is_unit : Char → Bool
is_unit c = code c == b'K' || code c == b'M' || code c == b'G' || code c == b'T'

-- `QUOTA_PATTERN`, /^\d+[KMGT]$/: `some_digit` says whether a digit was read already.
unfoldable pub quota_from : Bool → String → Bool
quota_from some_digit String.[] = false
quota_from some_digit (String.◌∷◌ c s) =
    let rest = quota_from true s in
    if is_digit c then rest else some_digit && is_unit c && is_empty s

unfoldable pub is_quota : String → Bool
unfolding quota_from
is_quota s = quota_from false s

unfoldable pub message_for : Failure → String
message_for other = "Something went wrong. Please try again."
message_for (http status detail) =
    if status == 409
    then "This address is already in use (mailbox or alias)."
    else if status == 404
    then "This mailbox or alias no longer exists."
    else if status == 400
    then "Invalid request. Check the address and the mailserver config volume."
    else if status == 422
    then "Invalid input. Check the email, password (min 8 chars) and quota format."
    else "Something went wrong. Please try again."
