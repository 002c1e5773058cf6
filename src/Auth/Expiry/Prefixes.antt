-- ===== src/Auth/Expiry/Prefixes.antt =====
-- Paths that the interceptor does not ignore, by what they begin with.
use Prim.Native.String.append
use text.Mathlib.Text.{starts_with}
use text.Mathlib.TextEquality.{starts_with_iff}
use mailserver_ui.Common.{
  String, Bool, true, false, List, [], ◌∷◌, ◌&&◌, ◌≡◌, refl, sym, ◌∙◌, arith, any, code, ◌==◌,
  if◌then◌else◌, ◌+++◌, Bool-cases, inl, inr,
}
use mailserver_ui.Auth.Expiry.{ignored_paths, is_ignored}

-- Two texts differ at a position that both have.
abbrev pub differ : String → String → Bool
differ String.[] t = false
differ (String.◌∷◌ c s) String.[] = false
differ (String.◌∷◌ c s) (String.◌∷◌ d t) =
    let rest = differ s t in if code c == code d then rest else true

differ-append : (s t u v : String) → differ s t ≡ true → t +++ v ≡ s +++ u → ⊥
differ-append String.[] t u v h e = ground arith
differ-append (String.◌∷◌ c s) String.[] u v h e = ground arith
differ-append (String.◌∷◌ c s) (String.◌∷◌ d t) u v h e =
    let texts : String.◌∷◌ d (t +++ v) ≡ String.◌∷◌ c (s +++ u) =
      sym (append.cons d t v) ∙ e ∙ append.cons c s u in
    let heads : d ≡ c = cc in
    let tails : t +++ v ≡ s +++ u = cc in differ-append s t u v (ground arith) tails

starts_with-differ : (s t u : String) → differ s t ≡ true → starts_with (s +++ u) t ≡ false
starts_with-differ s t u h = elim (Bool-cases (starts_with (s +++ u) t)) [
  | inl begins ↦
      let (v, e) = (starts_with_iff (s +++ u) t).0 begins in absurd (differ-append s t u v h e)
  | inr apart ↦ apart
]

abbrev pub all_differ : String → List String → Bool
all_differ s [] = true
all_differ s (p ∷ ps) = let rest = all_differ s ps in differ s p && rest

any-differ :
    (s u : String) (ps : List String)
    → all_differ s ps ≡ true
    → any (λ p. starts_with (s +++ u) p) ps ≡ false
any-differ s u [] h = refl
any-differ s u (p ∷ ps) h =
    let head : starts_with (s +++ u) p ≡ false = starts_with-differ s p u (ground arith) in
    let tail : any (λ p. starts_with (s +++ u) p) ps ≡ false = any-differ s u ps (ground arith) in
    rw (head, tail)

-- A path that begins with a text that differs from each ignored path is not ignored.
pub is_ignored-differ :
    (s u : String) → all_differ s ignored_paths ≡ true → is_ignored (s +++ u) ≡ false
unfolding is_ignored
is_ignored-differ s u h = any-differ s u ignored_paths h
