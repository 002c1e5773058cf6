-- ===== src/Async/Parallel/Laws.antt =====
-- Of tasks in parallel, each part of the signals ends as the one that writes it leaves it.
use mailserver_ui.Common.{true, false, List, [], ◌∷◌, ◌++◌, All}
use mailserver_ui.Async.{Task, pure, throw, get, put, call, choose, par, Server}
use mailserver_ui.Async.Parallel.{par_all, Keeps, Sets, Keeps-Sets}

module _ {S : Type 0} {Q : Type 0} {R : Q → Type 0} (srv : Server Q R) (P : S → Type 0) where
  open srv use {World, reply}

  -- Beside a task that is suspended, another has started; beside one that is not, it has not, or is
  -- suspended itself.
  abbrev KeepsAfter : Task S Q R (Unit {0}) → Task S Q R (Unit {0}) → S → Type 0
  KeepsAfter (call q k) u s = Keeps srv P u s
  KeepsAfter t u s = (x : S) → Keeps srv P u x

  abbrev SetsAfter : Task S Q R (Unit {0}) → Task S Q R (Unit {0}) → S → Type 0
  SetsAfter (call q k) u s = Sets srv P u s
  SetsAfter t u s = (x : S) → (P s → P x) → Sets srv P u x

  keeps_after :
      (t u : Task S Q R (Unit {0})) (s : S) → ((x : S) → Keeps srv P u x) → KeepsAfter t u s
  keeps_after (call q k) u s h = h s
  keeps_after (pure a) u s h = h
  keeps_after (throw e) u s h = h
  keeps_after (get k) u s h = h
  keeps_after (put s' t) u s h = h
  keeps_after (choose k) u s h = h

  sets_after :
      (t u : Task S Q R (Unit {0})) (s : S)
      → ((x : S) → (P s → P x) → Sets srv P u x)
      → SetsAfter t u s
  sets_after (call q k) u s h = h s (λ p. p)
  sets_after (pure a) u s h = h
  sets_after (throw e) u s h = h
  sets_after (get k) u s h = h
  sets_after (put s' t) u s h = h
  sets_after (choose k) u s h = h

  Keeps-par :
      (t u : Task S Q R (Unit {0})) (s : S)
      → Keeps srv P t s
      → KeepsAfter t u s
      → Keeps srv P (par t u) s
  Keeps-par (pure a) u s h g = g s
  Keeps-par (throw e) u s h g = h
  Keeps-par (get k) u s h g = Keeps-par (k s) u s h (keeps_after (k s) u s g)
  Keeps-par (put s' t) u s (i, h) g = (i, Keeps-par t u s' h (keeps_after t u s' g))
  Keeps-par (choose k) u s h g = λ b. Keeps-par (k b) u s (h b) (keeps_after (k b) u s g)
  Keeps-par (call q k) (pure a) s h g = h
  Keeps-par (call q k) (throw e) s h g = g
  Keeps-par (call q k) (get l) s h g = Keeps-par (call q k) (l s) s h g
  Keeps-par (call q k) (put s' u) s h (i, g) = (i, Keeps-par (call q k) u s' h g)
  Keeps-par (call q k) (choose l) s h g = λ b. Keeps-par (call q k) (l b) s h (g b)
  Keeps-par (call q k) (call p l) s h g = elim [
    | true ↦ λ w s'.
        Keeps-par (k (reply w q)) (call p l) s' (h w s')
          (keeps_after (k (reply w q)) (call p l) s' (λ x. g))
    | false ↦ λ w s'. Keeps-par (call q k) (l (reply w p)) s' h (g w s')
  ]

  Sets-par-left :
      (t u : Task S Q R (Unit {0})) (s : S)
      → Sets srv P t s
      → KeepsAfter t u s
      → Sets srv P (par t u) s
  Sets-par-left (pure a) u s h g = Keeps-Sets srv P u s (g s) h
  Sets-par-left (throw e) u s h g = h
  Sets-par-left (get k) u s h g = Sets-par-left (k s) u s h (keeps_after (k s) u s g)
  Sets-par-left (put s' t) u s h g = Sets-par-left t u s' h (keeps_after t u s' g)
  Sets-par-left (choose k) u s h g = λ b. Sets-par-left (k b) u s (h b) (keeps_after (k b) u s g)
  Sets-par-left (call q k) (pure a) s h g = h
  Sets-par-left (call q k) (throw e) s h g = g
  Sets-par-left (call q k) (get l) s h g = Sets-par-left (call q k) (l s) s h g
  Sets-par-left (call q k) (put s' u) s h (i, g) =
      Sets-par-left (call q k) u s' (λ w x j. h w x (λ p. j (i p))) g
  Sets-par-left (call q k) (choose l) s h g = λ b. Sets-par-left (call q k) (l b) s h (g b)
  Sets-par-left (call q k) (call p l) s h g = elim [
    | true ↦ λ w s' i.
        Sets-par-left (k (reply w q)) (call p l) s' (h w s' i)
          (keeps_after (k (reply w q)) (call p l) s' (λ x. g))
    | false ↦ λ w s' i.
        Sets-par-left (call q k) (l (reply w p)) s' (λ v x j. h v x (λ p. j (i p))) (g w s')
  ]

  Sets-par-right :
      (t u : Task S Q R (Unit {0})) (s : S)
      → Keeps srv P t s
      → SetsAfter t u s
      → Sets srv P (par t u) s
  Sets-par-right (pure a) u s h g = g s (λ p. p)
  Sets-par-right (throw e) u s h g = h
  Sets-par-right (get k) u s h g = Sets-par-right (k s) u s h (sets_after (k s) u s g)
  Sets-par-right (put s' t) u s (i, h) g =
      Sets-par-right t u s' h (sets_after t u s' (λ x j. g x (λ p. j (i p))))
  Sets-par-right (choose k) u s h g = λ b. Sets-par-right (k b) u s (h b) (sets_after (k b) u s g)
  Sets-par-right (call q k) (pure a) s h g = Keeps-Sets srv P (call q k) s h g
  Sets-par-right (call q k) (throw e) s h g = g
  Sets-par-right (call q k) (get l) s h g = Sets-par-right (call q k) (l s) s h g
  Sets-par-right (call q k) (put s' u) s h g = Sets-par-right (call q k) u s' h g
  Sets-par-right (call q k) (choose l) s h g = λ b. Sets-par-right (call q k) (l b) s h (g b)
  Sets-par-right (call q k) (call p l) s h g = elim [
    | true ↦ λ w s' i.
        Sets-par-right (k (reply w q)) (call p l) s' (h w s')
          (sets_after (k (reply w q)) (call p l) s' (λ x j v y m. g v y (λ p. m (j (i p)))))
    | false ↦ λ w s' i. Sets-par-right (call q k) (l (reply w p)) s' h (g w s' i)
  ]

  abbrev pub KeepsAlways : Task S Q R (Unit {0}) → Type 0
  KeepsAlways t = (x : S) → Keeps srv P t x

  Keeps-par_all :
      (ts : List (Task S Q R (Unit {0}))) → All KeepsAlways ts → KeepsAlways (par_all ts)
  Keeps-par_all [] h = λ x. tt
  Keeps-par_all (t ∷ ts) (h, hs) =
      λ x. Keeps-par t (par_all ts) x (h x) (keeps_after t (par_all ts) x (Keeps-par_all ts hs))

  -- Of tasks in parallel, one ends with `P` and the others keep it: all of them end with it.
  pub Sets-par_all :
      (before : List (Task S Q R (Unit {0}))) (t : Task S Q R (Unit {0}))
      (rest : List (Task S Q R (Unit {0})))
      → All KeepsAlways before
      → ((x : S) → Sets srv P t x)
      → All KeepsAlways rest
      → (x : S) → Sets srv P (par_all (before ++ t ∷ rest)) x
  Sets-par_all [] t rest h g hs x =
      Sets-par-left t (par_all rest) x (g x)
        (keeps_after t (par_all rest) x (Keeps-par_all rest hs))
  Sets-par_all (u ∷ us) t rest (h, k) g hs x =
      Sets-par-right u (par_all (us ++ t ∷ rest)) x (h x)
        (sets_after u (par_all (us ++ t ∷ rest)) x (λ y _. Sets-par_all us t rest k g hs y))
