-- ===== src/Mailserver/Texts.antt =====
-- mailserver.utils.ts, and the tests of the sections on what was typed in.
use mailserver_ui.Common.{
  ℕ, String, Char, code, Bool, true, false, ◌&&◌, ◌||◌, not, List, [], ◌∷◌, map, filter, trim,
  is_empty, if◌then◌else◌, ◌==◌,
}
use mailserver_ui.Async.{Failure, http, other}
use Prim.Native.String
pub mod Patterns
pub mod Targets

unfoldable pub mailserver_error_message : Failure → String
mailserver_error_message other = "Something went wrong. Please try again."
mailserver_error_message (http status detail) =
    if status == 409
    then "This entry already exists."
    else if status == 404
    then "This entry no longer exists."
    else if status == 400
    then "Invalid request. Check the values and the mailserver config volume."
    else if status == 422
    then "Invalid input. Check the fields and try again."
    else if status == 502
    then "The mailserver container could not be reached. Check the Docker socket mount."
    else "Something went wrong. Please try again."

-- `,`
abbrev pub is_comma : Char → Bool
is_comma c = code c == 44

abbrev pub onto_first : Char → List String → List String
onto_first c [] = String.◌∷◌ c String.[] ∷ []
onto_first c (part ∷ parts) = String.◌∷◌ c part ∷ parts

-- `raw.split(',')`
unfoldable pub split_commas : String → List String
split_commas String.[] = String.[] ∷ []
split_commas (String.◌∷◌ c s) =
    let rest = split_commas s in if is_comma c then String.[] ∷ rest else onto_first c rest

unfoldable pub parse_targets : String → List String
unfolding split_commas
parse_targets raw = filter (λ t. not (is_empty t)) (map trim (split_commas raw))

-- `targets.length === 0`
abbrev pub no_targets : List String → Bool
no_targets [] = true
no_targets (t ∷ ts) = false

-- `/`
abbrev pub is_slash : Char → Bool
is_slash c = code c == 47

-- What `.` does not match: line feed, carriage return, U+2028 and U+2029.
abbrev pub is_line_end : Char → Bool
is_line_end c = let n = code c in n == 10 || n == 13 || n == 0x2028 || n == 0x2029

-- `[imxs]`
abbrev pub is_flag : Char → Bool
is_flag c = let n = code c in n == 105 || n == 109 || n == 120 || n == 115

abbrev pub all_chars : (Char → Bool) → String → Bool
all_chars p String.[] = true
all_chars p (String.◌∷◌ c s) = p c && all_chars p s

-- The rest of a match after some body: a slash and flags to the end, or one more character of it.
unfoldable pub closes : String → Bool
closes String.[] = false
closes (String.◌∷◌ c s) =
    let rest = closes s in (is_slash c && all_chars is_flag s) || (not (is_line_end c) && rest)

unfoldable pub has_body : String → Bool
unfolding closes
has_body String.[] = false
has_body (String.◌∷◌ c s) = not (is_line_end c) && closes s

-- `/^\/.+\/[imxs]*$/.test(pattern)`
unfoldable pub is_regex_alias : String → Bool
unfolding has_body
is_regex_alias String.[] = false
is_regex_alias (String.◌∷◌ c s) = is_slash c && has_body s
