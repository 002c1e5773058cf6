-- ===== src/Async/Pool.antt =====
-- Handlers that overlap: each task that waits for an answer is suspended, and the answers may come
-- in any order. A schedule is a list of events.
use mailserver_ui.Common.{ℕ, zero, suc, true, List, [], ◌∷◌, ◌++◌}
use mailserver_ui.Async.Syntax.{Result, Task, pure, throw, get, put, call, choose}

module _ {S : Type 0} {Q : Type 0} {R : Q → Type 0} where
  -- Run synchronously up to the next call, which is left suspended.
  abbrev pub settle : Task S Q R (Unit {0}) → S → S × Task S Q R (Unit {0})
  settle (pure a) s = (s, pure a)
  settle (throw e) s = (s, throw e)
  settle (get k) s = settle (k s) s
  settle (put s' t) s = settle t s'
  settle (call q k) s = (s, call q k)
  settle (choose k) s = (s, choose k)

  -- One answer to a suspended task; of two pending calls the first is answered first.
  abbrev pub resume :
      ((q : Q) → Result (R q)) → Task S Q R (Unit {0}) → S → S × Task S Q R (Unit {0})
  resume reply (call q k) s = settle (k (reply q)) s
  resume reply (choose k) s = settle (k true) s
  resume reply t s = (s, t)

  abbrev pub resume_at :
      ((q : Q) → Result (R q))
      → ℕ
      → List (Task S Q R (Unit {0}))
      → S
      → S × List (Task S Q R (Unit {0}))
  resume_at reply i [] s = (s, [])
  resume_at reply zero (t ∷ ts) s = let (s', t') = resume reply t s in (s', t' ∷ ts)
  resume_at reply (suc i) (t ∷ ts) s = let (s', ts') = resume_at reply i ts s in (s', t ∷ ts')

pub data Event (S : Type 0) (Q : Type 0) (R : Q → Type 0) : Type 0 where
  start : Task S Q R (Unit {0}) → Event S Q R
  answer : ℕ → Event S Q R

module _ {S : Type 0} {Q : Type 0} {R : Q → Type 0} (reply : (q : Q) → Result (R q)) where
  -- The tasks are numbered in the order of their start.
  unfoldable pub run_schedule :
      List (Event S Q R) → List (Task S Q R (Unit {0})) → S → S × List (Task S Q R (Unit {0}))
  run_schedule [] ts s = (s, ts)
  run_schedule (start t ∷ es) ts s = let (s', t') = settle t s in run_schedule es (ts ++ t' ∷ []) s'
  run_schedule (answer i ∷ es) ts s =
      let (s', ts') = resume_at reply i ts s in run_schedule es ts' s'
