-- ===== src/Async/Parallel.antt =====
-- Tasks that run in parallel and write different parts of the signals.
pub mod Laws
use mailserver_ui.Common.{Bool, true, false, List, [], ◌∷◌, ◌++◌, All, ◌≡◌, refl}
use mailserver_ui.Async.{
  Failure, Result, ok, err, Task, pure, throw, get, put, call, choose, ◌>>=◌, try_catch, await,
  await_both, modify, skip, par, Server, run,
}

-- `Promise.all(tasks)`
abbrev pub par_all :
    {S : Type 0} {Q : Type 0} {R : Q → Type 0}
    → List (Task S Q R (Unit {0}))
    → Task S Q R (Unit {0})
par_all [] = skip
par_all (t ∷ ts) = par t (par_all ts)

module _ {S : Type 0} {Q : Type 0} {R : Q → Type 0} (srv : Server Q R) where
  open srv use {World, reply, after, first, tick}

  -- What a task can result in, the signals and the server being anything at each step.
  abbrev pub Outcome : {A : Type 0} → Task S Q R A → Result A → Type 0
  Outcome (pure a) r = r ≡ ok a
  Outcome (throw e) r = r ≡ err e
  Outcome (get k) r = (s : S) × Outcome (k s) r
  Outcome (put s t) r = Outcome t r
  Outcome (call q k) r = (w : World) × Outcome (k (reply w q)) r
  Outcome (choose k) r = (b : Bool) × Outcome (k b) r

  module _ (P : S → Type 0) where
    -- Started in `s`, the task does not fail and its writes keep `P`, whatever others write while
    -- it waits.
    abbrev pub Keeps : {A : Type 0} → Task S Q R A → S → Type 0
    Keeps (pure a) s = Unit
    Keeps (throw e) s = ⊥
    Keeps (get k) s = Keeps (k s) s
    Keeps (put s' t) s = (P s → P s') × Keeps t s'
    Keeps (call q k) s = (w : World) (s' : S) → Keeps (k (reply w q)) s'
    Keeps (choose k) s = (b : Bool) → Keeps (k b) s

    -- Started in `s`, the task does not fail and ends with `P`, whatever others write while it
    -- waits, as long as they keep `P` where it holds.
    abbrev pub Sets : {A : Type 0} → Task S Q R A → S → Type 0
    Sets (pure a) s = P s
    Sets (throw e) s = ⊥
    Sets (get k) s = Sets (k s) s
    Sets (put s' t) s = Sets t s'
    Sets (call q k) s = (w : World) (s' : S) → (P s → P s') → Sets (k (reply w q)) s'
    Sets (choose k) s = (b : Bool) → Sets (k b) s

    pub Keeps-Sets : {A : Type 0} (t : Task S Q R A) (s : S) → Keeps t s → P s → Sets t s
    Keeps-Sets (pure a) s h p = p
    Keeps-Sets (throw e) s h p = h
    Keeps-Sets (get k) s h p = Keeps-Sets (k s) s h p
    Keeps-Sets (put s' t) s (g, h) p = Keeps-Sets t s' h (g p)
    Keeps-Sets (call q k) s h p = λ w s' i. Keeps-Sets (k (reply w q)) s' (h w s') (i p)
    Keeps-Sets (choose k) s h p = λ b. Keeps-Sets (k b) s (h b) p

    -- A run ends with `P`, without a failure.
    pub Sets-run :
        (t : Task S Q R (Unit {0})) (s : S) (w : World)
        → Sets t s
        → ((run srv t s w).0 ≡ ok tt) × P (run srv t s w).1
    unfolding run
    Sets-run (pure a) s w h = (refl, h)
    Sets-run (throw e) s w h = absurd h
    Sets-run (get k) s w h = Sets-run (k s) s w h
    Sets-run (put s' t) s w h = Sets-run t s' w h
    Sets-run (call q k) s w h = Sets-run (k (reply w q)) s (after w q) (h w s (λ p. p))
    Sets-run (choose k) s w h = Sets-run (k (first w)) s (tick w) (h (first w))
