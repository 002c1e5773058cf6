-- ===== src/Common/Text.antt =====
-- What the source uses of `String.prototype`: `length` counts UTF-16 code units, `trim` strips the
-- white space and line terminators of ECMAScript, `includes` looks for a substring.
use Prim.Native.Nat.{ℕ, zero, suc, ◌+◌, ◌/◌, ◌%◌}
use Prim.Native.Char.{Char, code}
use Prim.Native.String
use Prim.Native.String.{String}
use mathlib.Core.Bool.{Bool, true, false, ◌&&◌, ◌||◌}
use mathlib.Core.Option.{Option, none, some}
use mathlib.Core.List.{List, [], ◌∷◌}
use text.Mathlib.Text.{starts_with, ◌==◌ as str_eq}
use mailserver_ui.Common.Lists.{any}
use mailserver_ui.Common.Tests.{ltb, leb, ◌==◌, if◌then◌else◌}

abbrev pub is_space : Char → Bool
is_space c =
    let n = code c in
    (leb 9 n && leb n 13)
    || n == 32
    || n == 0xa0
    || n == 0x1680
    || (leb 0x2000 n && leb n 0x200a)
    || n == 0x2028
    || n == 0x2029
    || n == 0x202f
    || n == 0x205f
    || n == 0x3000
    || n == 0xfeff

unfoldable pub text_length : String → ℕ
text_length String.[] = 0
text_length (String.◌∷◌ c s) = (if leb 0x10000 (code c) then 2 else 1) + text_length s

abbrev pub is_empty : String → Bool
is_empty String.[] = true
is_empty (String.◌∷◌ c s) = false

-- `s || null`
abbrev pub or_null : String → Option String
or_null s = if is_empty s then none else some s

unfoldable pub trim_start : String → String
trim_start String.[] = String.[]
trim_start (String.◌∷◌ c s) = let rest = trim_start s in if is_space c then rest else String.◌∷◌ c s

-- A space goes where nothing but spaces follows it.
unfoldable pub trim_end : String → String
trim_end String.[] = String.[]
trim_end (String.◌∷◌ c s) =
    let rest = trim_end s in if is_space c && is_empty rest then String.[] else String.◌∷◌ c rest

unfoldable pub trim : String → String
unfolding trim_start trim_end
trim s = trim_end (trim_start s)

unfoldable pub includes : String → String → Bool
includes String.[] needle = starts_with "" needle
includes (String.◌∷◌ c s) needle = starts_with (String.◌∷◌ c s) needle || includes s needle

-- The names that an object literal inherits from `Object.prototype`.
abbrev pub inherited_names : List String
inherited_names =
    "constructor" ∷ "toString" ∷ "toLocaleString" ∷ "valueOf" ∷ "hasOwnProperty" ∷ "isPrototypeOf"
    ∷ "propertyIsEnumerable" ∷ "__proto__" ∷ "__defineGetter__" ∷ "__defineSetter__"
    ∷ "__lookupGetter__" ∷ "__lookupSetter__" ∷ []

abbrev pub is_inherited : String → Bool
is_inherited name = any (λ t. str_eq t name) inherited_names

infixr 60 ◌+++◌
-- `${s}${t}`
abbrev pub ◌+++◌ : String → String → String
s +++ t = String.◌++◌ s t

digit_text : ℕ → String
digit_text zero = "0"
digit_text (suc zero) = "1"
digit_text (suc (suc zero)) = "2"
digit_text (suc (suc (suc zero))) = "3"
digit_text (suc (suc (suc (suc zero)))) = "4"
digit_text (suc (suc (suc (suc (suc zero))))) = "5"
digit_text (suc (suc (suc (suc (suc (suc zero)))))) = "6"
digit_text (suc (suc (suc (suc (suc (suc (suc zero))))))) = "7"
digit_text (suc (suc (suc (suc (suc (suc (suc (suc zero)))))))) = "8"
digit_text n = "9"

decimal_text : ℕ → ℕ → String
decimal_text zero n = digit_text (n % 10)
decimal_text (suc fuel) n =
    let rest = decimal_text fuel (n / 10) +++ digit_text (n % 10) in
    if ltb n 10 then digit_text n else rest

-- `${n}`; a number has fewer digits than its value plus one.
unfoldable pub number_text : ℕ → String
unfolding decimal_text digit_text
number_text n = decimal_text n n
