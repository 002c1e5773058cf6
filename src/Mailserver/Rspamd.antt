-- ===== src/Mailserver/Rspamd.antt =====
-- The section on the overrides of Rspamd: rspamd/rspamd.ts. Its signals and the check of a command.
pub mod Rules
pub mod Handlers
pub mod Flags
pub mod Requests
use Prim.Native.String
use mailserver_ui.Common.{
  Char, code, ℕ, String, Bool, true, false, ◌&&◌, ◌||◌, not, Option, none, some, List, [], ◌∷◌,
  if◌then◌else◌, ◌==◌, leb, is_empty, ◌+++◌, find, or_else, is_null, map, trim,
}
use mailserver_ui.Async.{Task}
use mailserver_ui.Models.{
  RspamdCommand, RspamdOverrideFile, RspamdCommandKind, set_common_option,
  set_option_for_controller, set_option_for_proxy, enable_module, disable_module,
  set_option_for_module, add_line,
}
use mailserver_ui.Api.{Call, Reply}
use mailserver_ui.Api.MailserverRequests.{rspamd_kind_text}

pub record Page : Type 0 where
  pub commands : List RspamdCommand
  pub override_files : List RspamdOverrideFile
  pub rspamd_enabled : Bool
  pub loading : Bool
  pub saving : Bool
  pub error : Option String
  pub success : Option String
  pub saving_file : Option String
  pub deleting_file : Option String
  pub new_file_name : String
  pub new_file_content : String
  pub creating_file : Bool

abbrev pub PageTask : Type 0
PageTask = Task Page Call Reply (Unit {0})

-- `target` is the label of the argument; hints and placeholders are left out.
pub record KindDescriptor : Type 0 where
  pub kind : RspamdCommandKind
  pub target : Option String
  pub option : Bool
  pub value : Bool

abbrev described : RspamdCommandKind → Option String → Bool → Bool → KindDescriptor
described kind target option value = record {
  kind = kind;
  target = target;
  option = option;
  value = value;
}

abbrev pub kinds : List KindDescriptor
kinds =
    described set_common_option none true true
    ∷ described set_option_for_controller none true true
    ∷ described set_option_for_proxy none true true
    ∷ described enable_module (some "Module") false false
    ∷ described disable_module (some "Module") false false
    ∷ described set_option_for_module (some "Module") true true
    ∷ described add_line (some "File") false true
    ∷ []

-- `a === b`
abbrev pub same_kind : RspamdCommandKind → RspamdCommandKind → Bool
same_kind set_common_option set_common_option = true
same_kind set_option_for_controller set_option_for_controller = true
same_kind set_option_for_proxy set_option_for_proxy = true
same_kind enable_module enable_module = true
same_kind disable_module disable_module = true
same_kind set_option_for_module set_option_for_module = true
same_kind add_line add_line = true
same_kind a b = false

-- `[A-Za-z0-9_-]`
abbrev pub is_name_char : Char → Bool
is_name_char c =
    let n = code c in
    (leb b'A' n && leb n b'Z')
    || (leb b'a' n && leb n b'z')
    || (leb b'0' n && leb n b'9')
    || n == b'_'
    || n == b'-'

-- The rest of a name, `some_char` saying whether there was a character before it.
unfoldable pub name_from : Bool → String → Bool
name_from some_char String.[] = some_char
name_from some_char (String.◌∷◌ c s) = let rest = name_from true s in is_name_char c && rest

-- `NAME_RE.test(s)`
unfoldable pub is_name : String → Bool
unfolding name_from
is_name s = name_from false s

unfoldable pub filename_from : Bool → String → Bool
unfolding is_name
filename_from some_char String.[] = false
filename_from some_char (String.◌∷◌ c s) =
    let rest = filename_from true s in
    if is_name_char c then rest else some_char && code c == b'.' && is_name s

-- `FILENAME_RE.test(s)`
unfoldable pub is_filename : String → Bool
unfolding filename_from
is_filename s = filename_from false s

unfoldable pub empty_command : RspamdCommandKind → RspamdCommand
empty_command kind = record { kind = kind; target = ""; option = ""; value = "" }

unfoldable pub descriptor : RspamdCommand → KindDescriptor
descriptor c =
    or_else (find (λ entry. same_kind entry.kind c.kind) kinds)
      (described set_common_option none true true)

-- `descriptor.target && !command.target`
abbrev pub lacks : Bool → String → Bool
lacks wanted value = wanted && is_empty value

abbrev pub is_add_line : RspamdCommandKind → Bool
is_add_line kind = same_kind kind add_line

-- The first reason to reject a command; `lower` is `toLowerCase`.
unfoldable pub invalid_reason : (String → String) → RspamdCommand → Option String
unfolding descriptor is_name is_filename
invalid_reason lower c =
    let d = descriptor c in
    let kind = rspamd_kind_text c.kind in
    if lacks (not (is_null d.target)) c.target
    then some (kind +++ " requires a " +++ lower (or_else d.target "") +++ ".")
    else if lacks d.option c.option
    then some (kind +++ " requires an option name.")
    else if lacks d.value c.value
    then some (kind +++ " requires a value.")
    else if not (is_empty c.option) && not (is_name c.option)
    then some ("Invalid Rspamd option name: \"" +++ c.option +++ "\".")
    else if not (is_empty c.target)
        && not (if is_add_line c.kind then is_filename c.target else is_name c.target)
    then some (
        "Invalid Rspamd "
        +++ (if is_add_line c.kind then "override file name" else "module name")
        +++ ": \""
        +++ c.target
        +++ "\".")
    else none

-- The loop of `onSave`: the reason of the first command that has one.
unfoldable pub first_reason : (String → String) → List RspamdCommand → Option String
first_reason lower [] = none
first_reason lower (c ∷ cs) =
    let rest = first_reason lower cs in
    if is_null (invalid_reason lower c) then rest else invalid_reason lower c

unfoldable pub clean : RspamdCommand → RspamdCommand
clean c = record c { target = trim c.target; option = trim c.option; value = trim c.value }
