-- ===== src/Mailserver/Texts/Targets.antt =====
-- The destinations that a comma-separated text names.
use text.Mathlib.TextLemmas.{nil-append, cons-append}
use mailserver_ui.Common.{
  Char, String, Bool, true, false, not, List, [], ◌∷◌, map, filter, All, ◌≡◌, refl, ap, ◌∙◌, arith,
  ◌+++◌, Bool-cases, inl, inr, is_empty, is_space, trim, trim_start, trim_end,
}
use mailserver_ui.Mailserver.Texts.{is_comma, all_chars, onto_first, split_commas, parse_targets}

abbrev starts_solid : String → Bool
starts_solid String.[] = true
starts_solid (String.◌∷◌ c s) = not (is_space c)

trim_start-solid : (s : String) → starts_solid (trim_start s) ≡ true
unfolding trim_start
trim_start-solid String.[] = refl
trim_start-solid (String.◌∷◌ c s) = ground (arith, trim_start-solid s)

trim_start_fixed : (s : String) → starts_solid s ≡ true → trim_start s ≡ s
unfolding trim_start
trim_start_fixed String.[] h = refl
trim_start_fixed (String.◌∷◌ c s) h = ground arith

trim_end-solid : (s : String) → starts_solid s ≡ true → starts_solid (trim_end s) ≡ true
unfolding trim_end
trim_end-solid String.[] h = refl
trim_end-solid (String.◌∷◌ c s) h = ground arith

trim_end_idem : (s : String) → trim_end (trim_end s) ≡ trim_end s
unfolding trim_end
trim_end_idem String.[] = refl
trim_end_idem (String.◌∷◌ c s) = ground (arith, trim_end_idem s)

trim_idem : (s : String) → trim (trim s) ≡ trim s
unfolding trim
trim_idem s =
    ap trim_end (
      trim_start_fixed (trim_end (trim_start s))
        (trim_end-solid (trim_start s) (trim_start-solid s)))
    ∙ trim_end_idem (trim_start s)

module _ (p : Char → Bool) where
  trim_start-all : (s : String) → all_chars p s ≡ true → all_chars p (trim_start s) ≡ true
  unfolding trim_start
  trim_start-all String.[] h = refl
  trim_start-all (String.◌∷◌ c s) h = ground (arith, trim_start-all s)

  trim_end-all : (s : String) → all_chars p s ≡ true → all_chars p (trim_end s) ≡ true
  unfolding trim_end
  trim_end-all String.[] h = refl
  trim_end-all (String.◌∷◌ c s) h = ground (arith, trim_end-all s)

  trim-all : (s : String) → all_chars p s ≡ true → all_chars p (trim s) ≡ true
  unfolding trim
  trim-all s h = trim_end-all (trim_start s) (trim_start-all s h)

-- No comma in it.
abbrev pub is_part : String → Bool
is_part = all_chars (λ c. not (is_comma c))

-- A text that is not empty, has no space at its ends and no comma in it.
abbrev pub IsTarget : String → Type 0
IsTarget t = (is_empty t ≡ false) × ((trim t ≡ t) × (is_part t ≡ true))

abbrev IsPart : String → Type 0
IsPart t = is_part t ≡ true

onto_first-parts :
    (c : Char) (parts : List String)
    → is_comma c ≡ false
    → All IsPart parts
    → All IsPart (onto_first c parts)
onto_first-parts c [] h k = ground arith
onto_first-parts c (part ∷ parts) h (first, k) = ground arith

split_commas-parts : (s : String) → All IsPart (split_commas s)
unfolding split_commas
split_commas-parts String.[] = (refl, tt)
split_commas-parts (String.◌∷◌ c s) = elim (Bool-cases (is_comma c)) [
  | inl on ↦ rw on (refl, split_commas-parts s)
  | inr off ↦ rw off (onto_first-parts c (split_commas s) off (split_commas-parts s))
]

kept :
    (parts : List String)
    → All IsPart parts
    → All IsTarget (filter (λ t. not (is_empty t)) (map trim parts))
kept [] h = tt
kept (part ∷ parts) (first, h) = elim (Bool-cases (is_empty (trim part))) [
  | inl on ↦ rw on (kept parts h)
  | inr off ↦ rw off ((off, (trim_idem part, trim-all _ part first)), kept parts h)
]

parse_targets_sound : (raw : String) → All IsTarget (parse_targets raw)
unfolding parse_targets
parse_targets_sound raw = kept (split_commas raw) (split_commas-parts raw)

-- The destinations as the section shows them.
abbrev pub target_text : String → List String → String
target_text t [] = t
target_text t (u ∷ us) = t +++ ", " +++ target_text u us

split_commas-part : (t : String) → is_part t ≡ true → split_commas t ≡ t ∷ []
unfolding split_commas
split_commas-part String.[] h = refl
split_commas-part (String.◌∷◌ c t) h = ground (arith, split_commas-part t)

abbrev comma : Char
comma = ","

abbrev space : Char
space = " "

split_commas-append :
    (t rest : String)
    → is_part t ≡ true
    → split_commas (t +++ String.◌∷◌ comma rest) ≡ t ∷ split_commas rest
unfolding split_commas
split_commas-append String.[] rest h = rw (nil-append (String.◌∷◌ comma rest)) refl
split_commas-append (String.◌∷◌ c t) rest h =
    rw (cons-append c t (String.◌∷◌ comma rest)) (ground (arith, split_commas-append t rest))

comma-space : (s : String) → ", " +++ s ≡ String.◌∷◌ comma (String.◌∷◌ space s)
comma-space s =
    cons-append comma (String.◌∷◌ space String.[]) s
    ∙ ap (λ r. String.◌∷◌ comma r)
        (cons-append space String.[] s ∙ ap (λ r. String.◌∷◌ space r) (nil-append s))

-- Each part but the first begins with the space that follows its comma.
split_commas-text :
    (t : String) (ts : List String)
    → All IsPart (t ∷ ts)
    → split_commas (target_text t ts) ≡ t ∷ map (λ u. String.◌∷◌ space u) ts
unfolding split_commas
split_commas-text t [] (h, k) = split_commas-part t h
split_commas-text t (u ∷ us) (h, k) = rw (comma-space (target_text u us)) (
    split_commas-append t (String.◌∷◌ space (target_text u us)) h
    ∙ ap (λ parts. t ∷ onto_first space parts) (split_commas-text u us k))

trim-space : (t : String) → trim (String.◌∷◌ space t) ≡ trim t
unfolding trim trim_start
trim-space t = refl

kept-All :
    (ts : List String)
    → All IsTarget ts
    → filter (λ t. not (is_empty t)) (map trim (map (λ u. String.◌∷◌ space u) ts)) ≡ ts
kept-All [] h = refl
kept-All (t ∷ ts) ((full, (same, part)), h) =
    rw (trim-space t, same, full) (ap (λ us. t ∷ us) (kept-All ts h))

targets-parts : (ts : List String) → All IsTarget ts → All IsPart ts
targets-parts [] h = tt
targets-parts (t ∷ ts) ((full, (same, part)), h) = (part, targets-parts ts h)

-- What is read from any text is a list of destinations, each not empty, without spaces at its ends
-- and without commas; and destinations of this kind that are written with a comma and a space
-- between them are read back as they are.
pub parse_targets-text :
    (raw t : String) (ts : List String)
    → All IsTarget (t ∷ ts)
    → All IsTarget (parse_targets raw) × (parse_targets (target_text t ts) ≡ t ∷ ts)
unfolding parse_targets
parse_targets-text raw t ts ((full, (same, part)), h) = (
  parse_targets_sound raw,
  rw (split_commas-text t ts (part, targets-parts ts h), same, full)
      (ap (λ us. t ∷ us) (kept-All ts h)),
)
