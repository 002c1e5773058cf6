-- ===== src/Mailserver/Postfix.antt =====
-- The section on the parameters of Postfix: postfix/postfix.ts.
pub mod Flags
pub mod Requests
use Prim.Native.String
use mailserver_ui.Common.{
  Char, code, ℕ, String, Bool, true, false, ◌&&◌, ◌||◌, not, Option, none, some, List, [], ◌∷◌,
  ◌++◌, map, filter, find, if◌then◌else◌, ◌==◌, leb, is_empty, ◌+++◌, trim,
}
use mailserver_ui.Async.{Task, ◌>>=◌, ◌>>◌, try_catch, try_finally, await, await_both, modify, read}
use mailserver_ui.Models.{PostfixOverride, PostfixMasterOverride}
use mailserver_ui.Api.{
  Call, Reply, routing, get_postfix_overrides, set_postfix_overrides, get_postfix_master_overrides,
  set_postfix_master_overrides,
}
use mailserver_ui.Mailserver.Rows.{remove_at, change_at}
use mailserver_ui.Mailserver.Texts.{mailserver_error_message, all_chars}

-- `[A-Za-z0-9_]`
abbrev pub is_word_char : Char → Bool
is_word_char c =
    let n = code c in
    (leb b'A' n && leb n b'Z')
    || (leb b'a' n && leb n b'z')
    || (leb b'0' n && leb n b'9')
    || n == b'_'

-- `/^[A-Za-z0-9_]+$/.test(s)`
unfoldable pub is_parameter : String → Bool
is_parameter s = not (is_empty s) && all_chars is_word_char s

-- Characters of one kind, at least one of them, then a slash, then `next`.
unfoldable pub segment : (Char → Bool) → (String → Bool) → Bool → String → Bool
segment p next some_char String.[] = false
segment p next some_char (String.◌∷◌ c s) =
    let rest = segment p next true s in if p c then rest else some_char && code c == b'/' && next s

-- `/^[A-Za-z0-9_.-]+\/[a-z]+\/[A-Za-z0-9_]+$/.test(s)`
unfoldable pub is_master_parameter : String → Bool
unfolding segment is_parameter
is_master_parameter s =
    segment (λ c. is_word_char c || code c == b'.' || code c == b'-')
      (segment (λ c. leb b'a' (code c) && leb (code c) b'z') is_parameter false) false s

pub record Page : Type 0 where
  pub overrides : List PostfixOverride
  pub master_overrides : List PostfixMasterOverride
  pub loading : Bool
  pub error : Option String
  pub success : Option String
  pub saving : Bool
  pub saving_master : Bool

abbrev pub PageTask : Type 0
PageTask = Task Page Call Reply (Unit {0})

unfoldable pub load : PageTask
load = do
  modify (λ s. record s { loading = true; error = none })
  try_finally
      (try_catch
        (do
          (main, master) ←
              await_both (routing get_postfix_overrides) (routing get_postfix_master_overrides)
          modify (λ s. record s { overrides = main; master_overrides = master }))
        (λ err. modify (λ s. record s { error = some "Unable to load the Postfix overrides." })))
      (modify (λ s. record s { loading = false }))

unfoldable pub add_override : PageTask
add_override =
    modify (λ s. record s { overrides = s.overrides ++ record { key = ""; value = "" } ∷ [] })

unfoldable pub remove_override : ℕ → PageTask
remove_override index = modify (λ s. record s { overrides = remove_at index s.overrides })

unfoldable pub on_override_key : ℕ → String → PageTask
on_override_key index key = modify (λ s. record s {
  overrides = change_at (λ (o : PostfixOverride). record o { key = key }) index s.overrides;
})

unfoldable pub on_override_value : ℕ → String → PageTask
on_override_value index value = modify (λ s. record s {
  overrides = change_at (λ (o : PostfixOverride). record o { value = value }) index s.overrides;
})

-- The rows that are sent: trimmed, and without those that have no key.
unfoldable pub cleaned : List PostfixOverride → List PostfixOverride
cleaned os =
    filter (λ (o : PostfixOverride). not (is_empty o.key))
      (map (λ (o : PostfixOverride). record { key = trim o.key; value = trim o.value }) os)

unfoldable pub save_overrides : Option PostfixOverride → List PostfixOverride → PageTask
save_overrides (some invalid) os = modify (λ s. record s {
  error = some ("Invalid Postfix parameter name: \"" +++ invalid.key +++ "\".");
})
save_overrides none os = do
  modify (λ s. record s { saving = true })
  try_finally
      (try_catch
        (do
          saved ← await (routing (set_postfix_overrides os))
          modify (λ s. record s {
            overrides = saved;
            success = some "Postfix overrides saved. Restart the mailserver to apply them.";
          }))
        (λ err. modify (λ s. record s { error = some (mailserver_error_message err) })))
      (modify (λ s. record s { saving = false }))

unfoldable pub on_save : PageTask
on_save = do
  modify (λ s. record s { error = none; success = none })
  s ← read
  let os = cleaned s.overrides
  save_overrides (find (λ (o : PostfixOverride). not (is_parameter o.key)) os) os

unfoldable pub add_master_override : PageTask
add_master_override = modify (λ s. record s {
  master_overrides = s.master_overrides ++ record { key = ""; value = "" } ∷ [];
})

unfoldable pub remove_master_override : ℕ → PageTask
remove_master_override index =
    modify (λ s. record s { master_overrides = remove_at index s.master_overrides })

unfoldable pub on_master_override_key : ℕ → String → PageTask
on_master_override_key index key = modify (λ s. record s {
  master_overrides =
      change_at (λ (o : PostfixMasterOverride). record o { key = key }) index s.master_overrides;
})

unfoldable pub on_master_override_value : ℕ → String → PageTask
on_master_override_value index value = modify (λ s. record s {
  master_overrides =
      change_at (λ (o : PostfixMasterOverride). record o { value = value }) index
        s.master_overrides;
})

unfoldable pub cleaned_master : List PostfixMasterOverride → List PostfixMasterOverride
cleaned_master os =
    filter (λ (o : PostfixMasterOverride). not (is_empty o.key))
      (map (λ (o : PostfixMasterOverride). record { key = trim o.key; value = trim o.value }) os)

unfoldable pub save_master_overrides :
    Option PostfixMasterOverride → List PostfixMasterOverride → PageTask
save_master_overrides (some invalid) os = modify (λ s. record s {
  error =
      some
        ("Invalid master parameter: \"" +++ invalid.key +++ "\". Expected service/type/parameter.");
})
save_master_overrides none os = do
  modify (λ s. record s { saving_master = true })
  try_finally
      (try_catch
        (do
          saved ← await (routing (set_postfix_master_overrides os))
          modify (λ s. record s {
            master_overrides = saved;
            success = some "Postfix master overrides saved. Restart the mailserver to apply them.";
          }))
        (λ err. modify (λ s. record s { error = some (mailserver_error_message err) })))
      (modify (λ s. record s { saving_master = false }))

unfoldable pub on_save_master : PageTask
on_save_master = do
  modify (λ s. record s { error = none; success = none })
  s ← read
  let os = cleaned_master s.master_overrides
  save_master_overrides (find (λ (o : PostfixMasterOverride). not (is_master_parameter o.key)) os)
      os
