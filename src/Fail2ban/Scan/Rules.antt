-- ===== src/Fail2ban/Scan/Rules.antt =====
-- Rules for a chain of scanners: what a chain does with a text of the right form, and what a chain
-- that succeeds has found.
use text.Mathlib.TextLemmas.{cons-append}
use mailserver_ui.Common.{
  Char, String, Bool, true, false, some, ◌≡◌, refl, ◌∙◌, sym, arith, ◌+++◌, is_space, not,
  Option-cases, inl, inr,
}
use mailserver_ui.Fail2ban.Scan.{
  Scan, ◌>>=◌, is_solid, begins, every, is_run, is_terminator, run_of, shape, fits_shape, literal,
  line_rest,
}
use mailserver_ui.Fail2ban.Scan.Laws.{run_of_iff, shape_iff, literal_iff}

pub >>=-some :
    {A B : Type 0} (m : Scan A) (f : A → Scan B) (s : String) (a : A) (rest : String)
    → m s ≡ some (a, rest)
    → (m >>= f) s ≡ f a rest
>>=-some m f s a rest h = rw (h, ◌>>=◌)

pub >>=-eq-some :
    {A B : Type 0} (m : Scan A) (f : A → Scan B) (s : String) (b : B × String)
    → (m >>= f) s ≡ some b
    → (a : A) × (rest : String) × (m s ≡ some (a, rest)) × (f a rest ≡ some b)
>>=-eq-some m f s b h = elim (Option-cases (m s)) [
  | inl nothing ↦ absurd (ground arith)
  | inr ((a, rest), e) ↦ (a, rest, e, sym (>>=-some m f s a rest e) ∙ h)
]

-- A text that begins with a run of one kind does not begin with another kind.
pub begins_run :
    (p q : Char → Bool) (t rest : String)
    → ((c : Char) → q c ≡ true → p c ≡ false)
    → is_run q t ≡ true
    → begins p (t +++ rest) ≡ false
begins_run p q String.[] rest other h = cc
begins_run p q (String.◌∷◌ c t) rest other h = rw (cons-append c t rest) (other c (ground arith))

pub space_solid : (c : Char) → is_solid c ≡ true → is_space c ≡ false
space_solid c h = ground arith

pub solid_space : (c : Char) → is_space c ≡ true → is_solid c ≡ false
solid_space c h = ground arith

pub begins_literal :
    (p : Char → Bool) (c : Char) (s rest : String)
    → p c ≡ false
    → begins p (String.◌∷◌ c s +++ rest) ≡ false
begins_literal p c s rest h = rw (cons-append c s rest) h

-- A run in front of a text that does not prolong it is taken.
pub after_run :
    {B : Type 0} (p : Char → Bool) (f : String → Scan B) (t rest : String)
    → is_run p t ≡ true
    → begins p rest ≡ false
    → (run_of p >>= f) (t +++ rest) ≡ f t rest
after_run p f t rest run stop =
    >>=-some (run_of p) f _ t rest ((run_of_iff p _ t rest).1 (run, stop, refl))

pub after_literal :
    {B : Type 0} (cs : String) (f : Unit {0} → Scan B) (rest : String)
    → (literal cs >>= f) (cs +++ rest) ≡ f tt rest
after_literal cs f rest = >>=-some (literal cs) f _ tt rest ((literal_iff cs _ rest).1 refl)

line_rest_sound :
    (s message rest : String)
    → line_rest s ≡ some (message, rest)
    → (every (λ c. not (is_terminator c)) message ≡ true) × (s ≡ message) × (rest ≡ "")
unfolding line_rest
line_rest_sound s message rest h = ground arith

-- What a successful scanner has found, handed on.
pub run_elim {ℓ} :
    {C : Type ℓ} {B : Type 0} (p : Char → Bool) (f : String → Scan B) (s : String) (b : B × String)
    → (run_of p >>= f) s ≡ some b
    → ((t rest : String)
        → is_run p t ≡ true
        → begins p rest ≡ false
        → s ≡ t +++ rest
        → f t rest ≡ some b
        → C)
    → C
run_elim p f s b h k =
    let (t, rest, taken, next) = >>=-eq-some (run_of p) f s b h in
    let (run, stop, e) = (run_of_iff p s t rest).0 taken in k t rest run stop e next

pub literal_elim {ℓ} :
    {C : Type ℓ} {B : Type 0} (cs : String) (f : Unit {0} → Scan B) (s : String) (b : B × String)
    → (literal cs >>= f) s ≡ some b
    → ((rest : String) → s ≡ cs +++ rest → f tt rest ≡ some b → C)
    → C
literal_elim cs f s b h k =
    let (u, rest, taken, next) = >>=-eq-some (literal cs) f s b h in
    k rest ((literal_iff cs s rest).0 taken) next

pub shape_elim {ℓ} :
    {C : Type ℓ} {B : Type 0} (cs : String) (f : String → Scan B) (s : String) (b : B × String)
    → (shape cs >>= f) s ≡ some b
    → ((t rest : String) → fits_shape cs t ≡ true → s ≡ t +++ rest → f t rest ≡ some b → C)
    → C
shape_elim cs f s b h k =
    let (t, rest, taken, next) = >>=-eq-some (shape cs) f s b h in
    let (fit, e) = (shape_iff cs s t rest).0 taken in k t rest fit e next

pub line_rest_elim {ℓ} :
    {C : Type ℓ} {B : Type 0} (f : String → Scan B) (s : String) (b : B × String)
    → (line_rest >>= f) s ≡ some b
    → (every (λ c. not (is_terminator c)) s ≡ true → f s "" ≡ some b → C)
    → C
line_rest_elim f s b h k =
    let (m, r, taken, next) = >>=-eq-some line_rest f s b h in
    let (kept, whole, done) = line_rest_sound s m r taken in k (rw whole kept) (cc)
