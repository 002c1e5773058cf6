-- ===== src/Mailserver/Texts/Patterns.antt =====
-- Which texts are accepted as a regular expression between slashes.
use text.Mathlib.TextLemmas.{nil-append, cons-append}
use mailserver_ui.Common.{
  Char, String, true, false, ◌&&◌, not, ◌≡◌, ◌↔◌, refl, sym, ap, ◌∙◌, arith, ◌+++◌, Bool-cases, inl,
  inr, is_empty,
}
use mailserver_ui.Mailserver.Texts.{
  is_slash, is_line_end, is_flag, all_chars, closes, has_body, is_regex_alias,
}
use mailserver_ui.Fail2ban.Scan.{literal}
use mailserver_ui.Fail2ban.Scan.Laws.{literal_iff}

slash_front : (c : Char) (s : String) → is_slash c ≡ true → String.◌∷◌ c s ≡ "/" +++ s
unfolding literal
slash_front c s h = (literal_iff "/" (String.◌∷◌ c s) s).0 (ground arith)

abbrev slash : Char
slash = "/"

slash-cons : (s : String) → "/" +++ s ≡ String.◌∷◌ slash s
slash-cons s = cons-append slash String.[] s ∙ ap (λ r. String.◌∷◌ slash r) (nil-append s)

-- A body without line ends, a slash, and flags.
abbrev pub IsClosed : String → String → Type 0
IsClosed body flags =
    (all_chars (λ c. not (is_line_end c)) body ≡ true) × (all_chars is_flag flags ≡ true)

closes_sound :
    (s : String)
    → closes s ≡ true
    → (body : String) × (flags : String) × IsClosed body flags × (s ≡ body +++ "/" +++ flags)
unfolding closes
closes_sound String.[] h = cc
closes_sound (String.◌∷◌ c s) h = elim (Bool-cases (is_slash c && all_chars is_flag s)) [
  | inl now ↦ (
    String.[],
    s,
    (refl, ground arith),
    slash_front c s (ground arith) ∙ sym (nil-append ("/" +++ s)),
  )
  | inr later ↦
      let (body, flags, (kept, ended), e) = closes_sound s (ground arith) in
      (
        String.◌∷◌ c body,
        flags,
        (ground arith, ended),
        ap (λ r. String.◌∷◌ c r) e ∙ sym (cons-append c body ("/" +++ flags)),
      )
]

closes-append : (body flags : String) → IsClosed body flags → closes (body +++ "/" +++ flags) ≡ true
unfolding closes
closes-append String.[] flags (kept, ended) =
    rw (nil-append ("/" +++ flags), slash-cons flags) (ground arith)
closes-append (String.◌∷◌ c body) flags (kept, ended) =
    rw (cons-append c body ("/" +++ flags))
      (ground (arith, closes-append body flags (ground arith, ended)))

has_body_iff :
    (s : String)
    → (has_body s ≡ true) ↔ (
        (body : String) × (flags : String) × IsClosed body flags
        × (is_empty body ≡ false)
        × (s ≡ body +++ "/" +++ flags))
unfolding has_body
has_body_iff s = (sound s, λ (body, flags, closed, full, e). complete s body flags closed full e)
  where
    sound :
        (s : String)
        → has_body s ≡ true
        → (body : String) × (flags : String) × IsClosed body flags
          × (is_empty body ≡ false)
          × (s ≡ body +++ "/" +++ flags)
    sound String.[] h = cc
    sound (String.◌∷◌ c s) h =
        let (body, flags, (kept, ended), e) = closes_sound s (ground arith) in
        (
          String.◌∷◌ c body,
          flags,
          (ground arith, ended),
          refl,
          ap (λ r. String.◌∷◌ c r) e ∙ sym (cons-append c body ("/" +++ flags)),
        )

    complete :
        (s body flags : String)
        → IsClosed body flags
        → is_empty body ≡ false
        → s ≡ body +++ "/" +++ flags
        → has_body s ≡ true
    complete s String.[] flags closed full e = cc
    complete s (String.◌∷◌ c body) flags (kept, ended) full e =
        rw (e, cons-append c body ("/" +++ flags))
          (ground (arith, closes-append body flags (ground arith, ended)))

-- A pattern is accepted exactly if it is a slash, a body of at least one character without line ends,
-- a slash, and flags among i, m, x and s, in any number.
pub is_regex_alias_iff :
    (pattern : String)
    → (is_regex_alias pattern ≡ true) ↔ (
        (body : String) × (flags : String) × IsClosed body flags
        × (is_empty body ≡ false)
        × (pattern ≡ "/" +++ body +++ "/" +++ flags))
unfolding is_regex_alias
is_regex_alias_iff pattern =
    (sound pattern, λ (body, flags, closed, full, e). complete body flags closed full e)
  where
    sound :
        (s : String)
        → is_regex_alias s ≡ true
        → (body : String) × (flags : String) × IsClosed body flags
          × (is_empty body ≡ false)
          × (s ≡ "/" +++ body +++ "/" +++ flags)
    sound String.[] h = cc
    sound (String.◌∷◌ c s) h =
        let (body, flags, closed, full, e) = (has_body_iff s).0 (ground arith) in
        (body, flags, closed, full, slash_front c s (ground arith) ∙ ap (λ r. "/" +++ r) e)

    complete :
        (body flags : String)
        → IsClosed body flags
        → is_empty body ≡ false
        → pattern ≡ "/" +++ body +++ "/" +++ flags
        → is_regex_alias pattern ≡ true
    complete body flags closed full e =
        rw (e, slash-cons (body +++ "/" +++ flags))
          ((has_body_iff (body +++ "/" +++ flags)).1 (body, flags, closed, full, refl))
