-- ===== src/Fail2ban/Log/Filter.antt =====
-- The rows that the log shows, and those that it leaves out.
use text.Mathlib.Text.{starts_with}
use text.Mathlib.TextEquality.{starts_with_iff}
use text.Mathlib.TextLemmas.{nil-append, cons-append}
use mathlib.Core.Path.{subst}
use mathlib.Core.List.{Perm}
use mathlib.Core.List.Perm
use mailserver_ui.Common.{
  ℕ, String, Bool, true, Option, List, [], ◌∷◌, Ordering, ◌≡◌, ◌↔◌, refl, ap, ◌∙◌, arith, ℤ, ◌+++◌,
  includes, trim, Bool-cases, inl, inr,
}
use mailserver_ui.TableSort.{TableSort}
use mailserver_ui.Fail2ban.Log.{Fail2banLogEntry}

-- The text holds the other one somewhere.
abbrev pub Contains : String → String → Type 0
Contains needle text = (front : String) × (rest : String) × (front +++ (needle +++ rest) ≡ text)

Contains-includes : (text needle : String) → includes text needle ≡ true → Contains needle text
unfolding includes
Contains-includes String.[] needle h =
    let (rest, e) = (starts_with_iff "" needle).0 h in ("", rest, nil-append _ ∙ e)
Contains-includes (String.◌∷◌ c text) needle h =
    elim (Bool-cases (starts_with (String.◌∷◌ c text) needle)) [
      | inl begins ↦
          let (rest, e) = (starts_with_iff (String.◌∷◌ c text) needle).0 begins in
          ("", rest, nil-append _ ∙ e)
      | inr apart ↦
          let (front, rest, e) = Contains-includes text needle (ground arith) in
          (String.◌∷◌ c front, rest, cons-append c front _ ∙ ap (String.◌∷◌ c) e)
    ]

includes-starts :
    (text needle : String) → starts_with text needle ≡ true → includes text needle ≡ true
unfolding includes
includes-starts String.[] needle h = h
includes-starts (String.◌∷◌ c text) needle h = ground arith

includes-append :
    (front needle rest : String) → includes (front +++ (needle +++ rest)) needle ≡ true
unfolding includes
includes-append String.[] needle rest =
    rw (nil-append (needle +++ rest))
      (includes-starts (needle +++ rest) needle ((starts_with_iff _ needle).1 (rest, refl)))
includes-append (String.◌∷◌ c front) needle rest =
    rw (cons-append c front (needle +++ rest)) (ground (arith, includes-append front needle rest))

pub includes_iff : (text needle : String) → (includes text needle ≡ true) ↔ Contains needle text
includes_iff text needle = (
  Contains-includes text needle,
  λ (front, rest, e). subst (λ s. includes s needle ≡ true) e (includes-append front needle rest),
)

module _ (time : String → Option ℤ) (number : String → ℕ) (locale : String → String → Ordering)
    (lower : String → String) where
  -- Whether the query finds an entry.
  abbrev found : String → Fail2banLogEntry → Bool
  found query entry = includes (lower entry.raw) (lower (trim query))
