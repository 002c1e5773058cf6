-- ===== src/Async/Sent.antt =====
-- The calls that a handler makes, in the order in which it makes them.
use mailserver_ui.Common.{
  String, Bool, true, false, Option, none, some, List, [], ◌∷◌, All, ◌≡◌, refl, if◌then◌else◌,
}
use mailserver_ui.Async.{
  Failure, Result, ok, err, Task, pure, throw, get, put, call, choose, ◌>>=◌, try_catch,
  try_finally, await, par, Server,
}

module _ {S : Type 0} {Q : Type 0} {R : Q → Type 0} (srv : Server Q R) where
  open srv use {World, reply, after, first, tick}

  unfoldable pub sent : {A : Type 0} → Task S Q R A → S → World → List Q
  sent (pure a) s w = []
  sent (throw e) s w = []
  sent (get k) s w = sent (k s) s w
  sent (put s' t) s w = sent t s' w
  sent (call q k) s w = q ∷ sent (k (reply w q)) s (after w q)
  sent (choose k) s w = sent (k (first w)) s (tick w)

module _ {S : Type 0} {Q : Type 0} {R : Q → Type 0} (P : Q → Type 0) where
  -- Each call has the property, whatever the signals are when they are read and whatever the
  -- replies.
  abbrev pub Asks : {A : Type 0} → Task S Q R A → Type 0
  Asks (pure a) = Unit
  Asks (throw e) = Unit
  Asks (get k) = (s : S) → Asks (k s)
  Asks (put s t) = Asks t
  Asks (call q k) = P q × ((r : Result (R q)) → Asks (k r))
  Asks (choose k) = (b : Bool) → Asks (k b)

  pub Asks-bind :
      {A B : Type 0} (t : Task S Q R A) (f : A → Task S Q R B)
      → Asks t
      → ((a : A) → Asks (f a))
      → Asks (t >>= f)
  Asks-bind (pure a) f h g = g a
  Asks-bind (throw e) f h g = tt
  Asks-bind (get k) f h g = λ s. Asks-bind (k s) f (h s) g
  Asks-bind (put s t) f h g = Asks-bind t f h g
  Asks-bind (call q k) f (p, h) g = (p, λ r. Asks-bind (k r) f (h r) g)
  Asks-bind (choose k) f h g = λ b. Asks-bind (k b) f (h b) g

  pub Asks-try_catch :
      {A : Type 0} (t : Task S Q R A) (f : Failure → Task S Q R A)
      → Asks t
      → ((e : Failure) → Asks (f e))
      → Asks (try_catch t f)
  Asks-try_catch (pure a) f h g = tt
  Asks-try_catch (throw e) f h g = g e
  Asks-try_catch (get k) f h g = λ s. Asks-try_catch (k s) f (h s) g
  Asks-try_catch (put s t) f h g = Asks-try_catch t f h g
  Asks-try_catch (call q k) f (p, h) g = (p, λ r. Asks-try_catch (k r) f (h r) g)
  Asks-try_catch (choose k) f h g = λ b. Asks-try_catch (k b) f (h b) g

  pub Asks-try_finally :
      {A : Type 0} (t : Task S Q R A) (f : Task S Q R (Unit {0}))
      → Asks t
      → Asks f
      → Asks (try_finally t f)
  Asks-try_finally (pure a) f h g = Asks-bind f (λ _. pure a) g (λ _. tt)
  Asks-try_finally (throw e) f h g = Asks-bind f (λ _. throw e) g (λ _. tt)
  Asks-try_finally (get k) f h g = λ s. Asks-try_finally (k s) f (h s) g
  Asks-try_finally (put s t) f h g = Asks-try_finally t f h g
  Asks-try_finally (call q k) f (p, h) g = (p, λ r. Asks-try_finally (k r) f (h r) g)
  Asks-try_finally (choose k) f h g = λ b. Asks-try_finally (k b) f (h b) g

  pub Asks-await : (q : Q) → P q → Asks (await q)
  Asks-await q p = (p, elim [ ok a ↦ tt | err e ↦ tt ])

  pub Asks-par : (t u : Task S Q R (Unit {0})) → Asks t → Asks u → Asks (par t u)
  Asks-par (pure a) u h g = g
  Asks-par (throw e) u h g = tt
  Asks-par (get k) u h g = λ s. Asks-par (k s) u (h s) g
  Asks-par (put s t) u h g = Asks-par t u h g
  Asks-par (choose k) u h g = λ b. Asks-par (k b) u (h b) g
  Asks-par (call q k) (pure a) h g = h
  Asks-par (call q k) (throw e) h g = tt
  Asks-par (call q k) (get l) h g = λ s. Asks-par (call q k) (l s) h (g s)
  Asks-par (call q k) (put s u) h g = Asks-par (call q k) u h g
  Asks-par (call q k) (choose l) h g = λ b. Asks-par (call q k) (l b) h (g b)
  Asks-par (call q k) (call p l) (x, h) (y, g) = elim [
    | true ↦ (x, λ r. Asks-par (k r) (call p l) (h r) (y, g))
    | false ↦ (y, λ r. Asks-par (call q k) (l r) (x, h) (g r))
  ]

  -- `if (b) { t } else { u }`
  pub Asks-if :
      {A : Type 0} (b : Bool) (t u : Task S Q R A)
      → (b ≡ true → Asks t)
      → (b ≡ false → Asks u)
      → Asks (if b then t else u)
  Asks-if true t u g h = g refl
  Asks-if false t u g h = h refl

  -- `if (problem) { f(problem) } else { t }`
  pub Asks-problem :
      {A : Type 0} (problem : Option String) (f : String → Task S Q R A) (t : Task S Q R A)
      → ((x : String) → Asks (f x))
      → (problem ≡ none → Asks t)
      → Asks (elim problem [ some x ↦ f x | none ↦ t ])
  Asks-problem none f t g h = h refl
  Asks-problem (some x) f t g h = g x

  -- `if (value === null) { t } else { f(value) }`
  pub Asks-value :
      {A X : Type 0} (value : Option X) (f : X → Task S Q R A) (t : Task S Q R A)
      → ((x : X) → Asks (f x))
      → Asks t
      → Asks (elim value [ none ↦ t | some x ↦ f x ])
  Asks-value none f t g h = h
  Asks-value (some x) f t g h = g x

  module _ (srv : Server Q R) where
    open srv use {World, reply, after, first, tick}

    pub sent-Asks :
        {A : Type 0} (t : Task S Q R A) → Asks t → (s : S) (w : World) → All P (sent srv t s w)
    unfolding sent
    sent-Asks (pure a) h s w = tt
    sent-Asks (throw e) h s w = tt
    sent-Asks (get k) h s w = sent-Asks (k s) (h s) s w
    sent-Asks (put s' t) h s w = sent-Asks t h s' w
    sent-Asks (call q k) (p, h) s w = (p, sent-Asks (k (reply w q)) (h (reply w q)) s (after w q))
    sent-Asks (choose k) h s w = sent-Asks (k (first w)) (h (first w)) s (tick w)
