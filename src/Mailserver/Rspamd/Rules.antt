-- ===== src/Mailserver/Rspamd/Rules.antt =====
-- Which commands are accepted.
use mailserver_ui.Common.{
  String, Bool, true, false, none, List, [], ◌∷◌, ◌≡◌, inl, inr, ◌↔◌, is_empty, arith, All,
  Option-cases,
}
use mailserver_ui.Models.{
  RspamdCommand, RspamdCommandKind, set_common_option, set_option_for_controller,
  set_option_for_proxy, enable_module, disable_module, set_option_for_module, add_line,
}
use mailserver_ui.Mailserver.Rspamd.{is_name, is_filename, invalid_reason, descriptor, first_reason}

-- What a directive takes.
abbrev pub takes_target : RspamdCommandKind → Bool
takes_target set_common_option = false
takes_target set_option_for_controller = false
takes_target set_option_for_proxy = false
takes_target kind = true

abbrev pub takes_option : RspamdCommandKind → Bool
takes_option enable_module = false
takes_option disable_module = false
takes_option add_line = false
takes_option kind = true

abbrev pub takes_value : RspamdCommandKind → Bool
takes_value enable_module = false
takes_value disable_module = false
takes_value kind = true

-- The target of `add-line` is the name of a file with an extension, that of another directive a
-- module.
abbrev pub IsTargetOf : RspamdCommandKind → String → Type 0
IsTargetOf add_line target = is_filename target ≡ true
IsTargetOf kind target = is_name target ≡ true

abbrev Given : Bool → String → Type 0
Given wanted value = wanted ≡ true → is_empty value ≡ false

-- An argument that the directive takes is there, and one that is there is well formed.
abbrev pub IsCommand : RspamdCommand → Type 0
IsCommand c =
    (Given (takes_target c.kind) c.target
      × (Given (takes_option c.kind) c.option × Given (takes_value c.kind) c.value))
    × ((is_empty c.option ≡ false → is_name c.option ≡ true)
        × (is_empty c.target ≡ false → IsTargetOf c.kind c.target))

abbrev command : RspamdCommandKind → String → String → String → RspamdCommand
command k t o v = record { kind = k; target = t; option = o; value = v }

invalid_reason_sound :
    (lower : String → String) (k : RspamdCommandKind) (t o v : String)
    → invalid_reason lower (command k t o v) ≡ none
    → IsCommand (command k t o v)
unfolding invalid_reason descriptor
invalid_reason_sound lower set_common_option t o v h = ground arith
invalid_reason_sound lower set_option_for_controller t o v h = ground arith
invalid_reason_sound lower set_option_for_proxy t o v h = ground arith
invalid_reason_sound lower enable_module t o v h = ground arith
invalid_reason_sound lower disable_module t o v h = ground arith
invalid_reason_sound lower set_option_for_module t o v h = ground arith
invalid_reason_sound lower add_line t o v h = ground arith

invalid_reason_complete :
    (lower : String → String) (k : RspamdCommandKind) (t o v : String)
    → IsCommand (command k t o v)
    → invalid_reason lower (command k t o v) ≡ none
unfolding invalid_reason descriptor
invalid_reason_complete lower set_common_option t o v h = ground arith
invalid_reason_complete lower set_option_for_controller t o v h = ground arith
invalid_reason_complete lower set_option_for_proxy t o v h = ground arith
invalid_reason_complete lower enable_module t o v h = ground arith
invalid_reason_complete lower disable_module t o v h = ground arith
invalid_reason_complete lower set_option_for_module t o v h = ground arith
invalid_reason_complete lower add_line t o v h = ground arith

-- A command is accepted exactly if every argument that its directive takes is given, an option that
-- is given is a name, and a target that is given is a file name with an extension for `add-line` and
-- a name otherwise.
pub invalid_reason-none_iff :
    (lower : String → String) (c : RspamdCommand) → (invalid_reason lower c ≡ none) ↔ IsCommand c
invalid_reason-none_iff lower c = (
  invalid_reason_sound lower c.kind c.target c.option c.value,
  invalid_reason_complete lower c.kind c.target c.option c.value,
)

pub first_reason-none :
    (lower : String → String) (cs : List RspamdCommand)
    → first_reason lower cs ≡ none
    → All IsCommand cs
unfolding first_reason
first_reason-none lower [] h = tt
first_reason-none lower (c ∷ cs) h = elim (Option-cases (invalid_reason lower c)) [
  | inl e ↦ ((invalid_reason-none_iff lower c).0 e, first_reason-none lower cs (ground arith))
  | inr (r, e) ↦ absurd (ground arith)
]
