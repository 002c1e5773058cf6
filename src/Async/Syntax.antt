-- ===== src/Async/Syntax.antt =====
-- The syntax of a handler: a page's method as a tree of signal accesses and awaited calls.
use mailserver_ui.Common.{ℕ, Option, Bool, true, false, String}

-- What a rejected promise carries: an `HttpErrorResponse` with its status and, where the body has
-- one, its textual `detail`; or anything else that is thrown.
pub data Failure : Type 0 where
  http : ℕ → Option String → Failure
  other : Failure

pub data Result (A : Type 0) : Type 0 where
  ok : A → Result A
  err : Failure → Result A

-- `S` is the page's signals, `Q` the calls it makes, `R q` what a call resolves to.
pub data Task (S : Type 0) (Q : Type 0) (R : Q → Type 0) (A : Type 0) : Type 0 where
  pure : A → Task S Q R A
  throw : Failure → Task S Q R A
  get : (S → Task S Q R A) → Task S Q R A
  put : S → Task S Q R A → Task S Q R A
  call : (q : Q) → (Result (R q) → Task S Q R A) → Task S Q R A
  choose : (Bool → Task S Q R A) → Task S Q R A

module _ {S : Type 0} {Q : Type 0} {R : Q → Type 0} where
  infixl 5 ◌>>=◌ ◌>>◌
  abbrev pub ◌>>=◌ : {A B : Type 0} → Task S Q R A → (A → Task S Q R B) → Task S Q R B
  pure a >>= f = f a
  throw e >>= f = throw e
  get k >>= f = get (λ s. k s >>= f)
  put s t >>= f = put s (t >>= f)
  call q k >>= f = call q (λ r. k r >>= f)
  choose k >>= f = choose (λ b. k b >>= f)

  abbrev pub ◌>>◌ : {B : Type 0} → Task S Q R (Unit {0}) → Task S Q R B → Task S Q R B
  m >> n = m >>= λ _. n

  -- `try { m } catch (err) { h(err) }`
  abbrev pub try_catch : {A : Type 0} → Task S Q R A → (Failure → Task S Q R A) → Task S Q R A
  try_catch (pure a) h = pure a
  try_catch (throw e) h = h e
  try_catch (get k) h = get (λ s. try_catch (k s) h)
  try_catch (put s t) h = put s (try_catch t h)
  try_catch (call q k) h = call q (λ r. try_catch (k r) h)
  try_catch (choose k) h = choose (λ b. try_catch (k b) h)

  -- `try { m } finally { fin }`: the result or the failure of `m` stands.
  abbrev pub try_finally : {A : Type 0} → Task S Q R A → Task S Q R (Unit {0}) → Task S Q R A
  try_finally (pure a) fin = fin >> pure a
  try_finally (throw e) fin = fin >> throw e
  try_finally (get k) fin = get (λ s. try_finally (k s) fin)
  try_finally (put s t) fin = put s (try_finally t fin)
  try_finally (call q k) fin = call q (λ r. try_finally (k r) fin)
  try_finally (choose k) fin = choose (λ b. try_finally (k b) fin)

  abbrev pub await : (q : Q) → Task S Q R (R q)
  await q = call q (elim [ ok a ↦ pure a | err e ↦ throw e ])

  -- Signal writes, given as a function on all the signals.
  abbrev pub modify : (S → S) → Task S Q R (Unit {0})
  modify f = get (λ s. put (f s) (pure tt))

  abbrev pub read : Task S Q R S
  read = get (λ s. pure s)

  abbrev pub skip : Task S Q R (Unit {0})
  skip = pure tt

  -- `await Promise.all([t, u])` for tasks that trap their own failures. Each runs up to its first
  -- call at once; then whichever reply comes first is handled first.
  abbrev pub par : Task S Q R (Unit {0}) → Task S Q R (Unit {0}) → Task S Q R (Unit {0})
  par (pure a) u = u
  par (throw e) u = throw e
  par (get k) u = get (λ s. par (k s) u)
  par (put s t) u = put s (par t u)
  par (choose k) u = choose (λ b. par (k b) u)
  par (call q k) (pure a) = call q k
  par (call q k) (throw e) = throw e
  par (call q k) (get l) = get (λ s. par (call q k) (l s))
  par (call q k) (put s u) = put s (par (call q k) u)
  par (call q k) (choose l) = choose (λ b. par (call q k) (l b))
  par (call q k) (call p l) = choose (elim [
    | true ↦ call q (λ r. par (k r) (call p l))
    | false ↦ call p (λ r. par (call q k) (l r))
  ])

  -- `await Promise.all([p, q])` for two calls: both are made, replies come in either order, and the
  -- first failure to arrive is the result. That result is handed on behind the other reply, which is
  -- dropped.
  abbrev pub await_both : (p q : Q) → Task S Q R (R p × R q)
  await_both p q = choose (elim [
    | true ↦ call p (elim [
      | ok a ↦ call q (elim [ ok b ↦ pure (a, b) | err e ↦ throw e ])
      | err e ↦ call q (λ _. throw e)
    ])
    | false ↦ call q (elim [
      | ok b ↦ call p (elim [ ok a ↦ pure (a, b) | err e ↦ throw e ])
      | err e ↦ call p (λ _. throw e)
    ])
  ])

-- A task on a part of the signals, such as those of a shared service.
abbrev pub zoom :
    {S T : Type 0} {Q : Type 0} {R : Q → Type 0} {A : Type 0}
    → (S → T)
    → (T → S → S)
    → Task T Q R A
    → Task S Q R A
zoom out back (pure a) = pure a
zoom out back (throw e) = throw e
zoom out back (get k) = get (λ s. zoom out back (k (out s)))
zoom out back (put t u) = get (λ s. put (back t s) (zoom out back u))
zoom out back (call q k) = call q (λ r. zoom out back (k r))
zoom out back (choose k) = choose (λ b. zoom out back (k b))
