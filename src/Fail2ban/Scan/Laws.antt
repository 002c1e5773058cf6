-- ===== src/Fail2ban/Scan/Laws.antt =====
-- A scanner succeeds exactly on a text that has its piece in front.
use text.Mathlib.TextLemmas.{nil-append, cons-append}
use mailserver_ui.Common.{
  Char, code, String, Bool, true, false, some, ◌≡◌, ◌↔◌, refl, sym, ap, ◌∙◌, arith, ◌+++◌, ◌==◌,
  Bool-cases, Option-cases, inl, inr,
}
use text.Mathlib.TextEquality.{Char-path}
use mailserver_ui.Fail2ban.Scan.{
  begins, every, is_run, span, run_of, fits, shape, fits_shape, literal,
}

span-append :
    (p : Char → Bool) (t rest : String)
    → every p t ≡ true
    → begins p rest ≡ false
    → span p (t +++ rest) ≡ (t, rest)
unfolding span
span-append p String.[] String.[] h k = refl
span-append p String.[] (String.◌∷◌ c s) h k = rw (nil-append (String.◌∷◌ c s)) (ground arith)
span-append p (String.◌∷◌ c t) rest h k =
    rw (cons-append c t rest) (ground (arith, span-append p t rest))

span_sound :
    (p : Char → Bool) (s : String)
    → (every p (span p s).0 ≡ true)
      × (begins p (span p s).1 ≡ false)
      × (s ≡ (span p s).0 +++ (span p s).1)
unfolding span
span_sound p String.[] = (refl, refl, refl)
span_sound p (String.◌∷◌ c s) = elim (Bool-cases (p c)) [
  | inl on ↦
      let (front, stop, e) = span_sound p s in
      rw on (ground arith, stop, ap (λ r. String.◌∷◌ c r) e ∙ sym (cons-append c _ _))
  | inr off ↦ rw off (refl, off, sym (nil-append (String.◌∷◌ c s)))
]

begins_append :
    (p : Char → Bool) (t rest : String) → is_run p t ≡ true → begins p (t +++ rest) ≡ true
begins_append p String.[] rest h = cc
begins_append p (String.◌∷◌ c t) rest h = rw (cons-append c t rest) (ground arith)

begins-span : (p : Char → Bool) (s : String) → begins p s ≡ true → begins p (span p s).0 ≡ true
unfolding span
begins-span p String.[] h = cc
begins-span p (String.◌∷◌ c s) h = rw h h

-- A run in front, and what follows does not prolong it.
pub run_of_iff :
    (p : Char → Bool) (s t rest : String)
    → (run_of p s ≡ some (t, rest))
      ↔ ((is_run p t ≡ true) × (begins p rest ≡ false) × (s ≡ t +++ rest))
unfolding run_of
run_of_iff p s t rest = (sound, complete)
  where
    sound :
        run_of p s ≡ some (t, rest)
        → (is_run p t ≡ true) × (begins p rest ≡ false) × (s ≡ t +++ rest)
    sound h = elim (Bool-cases (begins p s)) [
      | inl on ↦
          let e : span p s ≡ (t, rest) = ground arith in
          let (all, stop, joined) = span_sound p s in
          let first = begins-span p s on in
          let parts : ((span p s).0 ≡ t) × ((span p s).1 ≡ rest) =
            (ap (λ x. x.0) e, ap (λ x. x.1) e) in
          ground (arith, all, stop, joined, first, parts)
      | inr off ↦ absurd (ground arith)
    ]

    complete :
        (is_run p t ≡ true) × (begins p rest ≡ false) × (s ≡ t +++ rest)
        → run_of p s ≡ some (t, rest)
    complete (run, stop, e) =
        rw (e, begins_append p t rest run, span-append p t rest (ground arith) stop)

shape-append :
    (cs t rest : String) → fits_shape cs t ≡ true → shape cs (t +++ rest) ≡ some (t, rest)
unfolding shape
shape-append String.[] String.[] rest h = rw (nil-append rest) refl
shape-append String.[] (String.◌∷◌ d t) rest h = cc
shape-append (String.◌∷◌ c cs) String.[] rest h = cc
shape-append (String.◌∷◌ c cs) (String.◌∷◌ d t) rest h =
    rw (cons-append d t rest) (ground (arith, shape-append cs t rest))

shape_sound :
    (cs s t rest : String)
    → shape cs s ≡ some (t, rest)
    → (fits_shape cs t ≡ true) × (s ≡ t +++ rest)
unfolding shape
shape_sound String.[] s String.[] rest h = ground (arith, nil-append rest)
shape_sound String.[] s (String.◌∷◌ d t) rest h = cc
shape_sound (String.◌∷◌ c cs) String.[] t rest h = cc
shape_sound (String.◌∷◌ c cs) (String.◌∷◌ d s) t rest h = elim (Bool-cases (fits c d)) [
  | inl fit ↦ elim (Option-cases (shape cs s)) [
    | inl nothing ↦ absurd (ground arith)
    | inr ((t', r), e) ↦
        let (sub, joined) = shape_sound cs s t' r e in
        let front : t ≡ String.◌∷◌ d t' = ground arith in
        let same_rest : rest ≡ r = ground arith in
        rw (front, same_rest)
          (ground arith, ap (λ u. String.◌∷◌ d u) joined ∙ sym (cons-append d t' r))
  ]
  | inr unfit ↦ absurd (ground arith)
]

-- A text of the shape in front.
pub shape_iff :
    (cs s t rest : String)
    → (shape cs s ≡ some (t, rest)) ↔ ((fits_shape cs t ≡ true) × (s ≡ t +++ rest))
shape_iff cs s t rest = (
  shape_sound cs s t rest,
  λ (h : (fits_shape cs t ≡ true) × (s ≡ t +++ rest)). rw h.1 (shape-append cs t rest h.0),
)

literal-append : (cs rest : String) → literal cs (cs +++ rest) ≡ some (tt, rest)
unfolding literal
literal-append String.[] rest = rw (nil-append rest) refl
literal-append (String.◌∷◌ c cs) rest =
    rw (cons-append c cs rest) (ground (arith, literal-append cs rest))

literal_sound : (cs s rest : String) → literal cs s ≡ some (tt, rest) → s ≡ cs +++ rest
unfolding literal
literal_sound String.[] s rest h = ground (arith, nil-append rest)
literal_sound (String.◌∷◌ c cs) String.[] rest h = cc
literal_sound (String.◌∷◌ c cs) (String.◌∷◌ d s) rest h = elim (Bool-cases (code c == code d)) [
  | inl on ↦
      let heads : d ≡ c = Char-path d c (ground arith) in
      let tails : s ≡ cs +++ rest = literal_sound cs s rest (ground arith) in
      rw (heads, tails) (sym (cons-append c cs rest))
  | inr off ↦ absurd (ground arith)
]

-- The fixed text in front.
pub literal_iff : (cs s rest : String) → (literal cs s ≡ some (tt, rest)) ↔ (s ≡ cs +++ rest)
literal_iff cs s rest =
    (literal_sound cs s rest, λ (e : s ≡ cs +++ rest). rw e (literal-append cs rest))
