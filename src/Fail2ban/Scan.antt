-- ===== src/Fail2ban/Scan.antt =====
-- Scanners, the pieces of a regular expression without backtracking: each takes the front of a text
-- and leaves the rest.
pub mod Laws
pub mod Rules
use Prim.Native.String
use mailserver_ui.Common.{
  Char, code, String, Bool, true, false, Option, none, some, ◌&&◌, ◌||◌, not, if◌then◌else◌, leb,
  ◌==◌, is_space,
}

abbrev pub Scan : Type 0 → Type 0
Scan A = String → Option (A × String)

infixl 5 ◌>>=◌ ◌>>◌
abbrev pub ◌>>=◌ : {A B : Type 0} → Scan A → (A → Scan B) → Scan B
◌>>=◌ m f s = elim (m s) [ none ↦ none | some (a, rest) ↦ f a rest ]

abbrev pub ◌>>◌ : {B : Type 0} → Scan (Unit {0}) → Scan B → Scan B
m >> n = m >>= λ _. n

-- \d, \S
abbrev pub is_digit : Char → Bool
is_digit c = leb b'0' (code c) && leb (code c) b'9'

abbrev pub is_solid : Char → Bool
is_solid c = not (is_space c)

-- A text is longest when what follows does not begin like it.
abbrev pub begins : (Char → Bool) → String → Bool
begins p String.[] = false
begins p (String.◌∷◌ c s) = p c

abbrev pub every : (Char → Bool) → String → Bool
every p String.[] = true
every p (String.◌∷◌ c s) = let rest = every p s in p c && rest

-- One or more characters of a kind.
abbrev pub is_run : (Char → Bool) → String → Bool
is_run p s = begins p s && every p s

unfoldable pub span : (Char → Bool) → String → String × String
span p String.[] = (String.[], String.[])
span p (String.◌∷◌ c s) =
    let (front, rest) = span p s in
    if p c then (String.◌∷◌ c front, rest) else (String.[], String.◌∷◌ c s)

-- `p+`, greedy
unfoldable pub run_of : (Char → Bool) → Scan String
unfolding span
run_of p s = if begins p s then some (span p s) else none

-- A character of a shape: a zero stands for any digit, another character for itself.
abbrev pub fits : Char → Char → Bool
fits c d = if code c == b'0' then is_digit d else code c == code d

unfoldable pub shape : String → Scan String
shape String.[] s = some (String.[], s)
shape (String.◌∷◌ c cs) String.[] = none
shape (String.◌∷◌ c cs) (String.◌∷◌ d s) =
    let rest = shape cs s in
    if fits c d then elim rest [ none ↦ none | some (t, r) ↦ some (String.◌∷◌ d t, r) ] else none

abbrev pub fits_shape : String → String → Bool
fits_shape String.[] String.[] = true
fits_shape String.[] (String.◌∷◌ d s) = false
fits_shape (String.◌∷◌ c cs) String.[] = false
fits_shape (String.◌∷◌ c cs) (String.◌∷◌ d s) = let rest = fits_shape cs s in fits c d && rest

-- A fixed text.
unfoldable pub literal : String → Scan (Unit {0})
literal String.[] s = some (tt, s)
literal (String.◌∷◌ c cs) String.[] = none
literal (String.◌∷◌ c cs) (String.◌∷◌ d s) =
    let rest = literal cs s in if code c == code d then rest else none

-- `.*$`: a line terminator of ECMAScript stops it.
abbrev pub is_terminator : Char → Bool
is_terminator c = let n = code c in n == 10 || n == 13 || n == 0x2028 || n == 0x2029

unfoldable pub line_rest : Scan String
line_rest s = if every (λ c. not (is_terminator c)) s then some (s, String.[]) else none
