-- ===== src/Async/Semantics.antt =====
-- A handler run to its end against a server that answers its calls.
use mailserver_ui.Common.{Bool, ◌≡◌, refl, ◌⊎◌, inl, inr}
use mailserver_ui.Async.Syntax.{Failure, Result, ok, err, Task, pure, throw, get, put, call, choose}

-- The server and the network. `World` is all that the answers depend on; `first` says which of two
-- pending replies comes first.
pub record Server (Q : Type 0) (R : Q → Type 0) : Type 1 where
  pub World : Type 0
  pub reply : World → (q : Q) → Result (R q)
  pub after : World → Q → World
  pub first : World → Bool
  pub tick : World → World

module _ {S : Type 0} {Q : Type 0} {R : Q → Type 0} (srv : Server Q R) where
  open srv use {World, reply, after, first, tick}

  unfoldable pub run : {A : Type 0} → Task S Q R A → S → World → Result A × S × World
  run (pure a) s w = (ok a, s, w)
  run (throw e) s w = (err e, s, w)
  run (get k) s w = run (k s) s w
  run (put s' t) s w = run t s' w
  run (call q k) s w = run (k (reply w q)) s (after w q)
  run (choose k) s w = run (k (first w)) s (tick w)

pub Result-cases :
    {A : Type 0} (r : Result A) → ((a : A) × (r ≡ ok a)) ⊎ ((e : Failure) × (r ≡ err e))
Result-cases (ok a) = inl (a, refl)
Result-cases (err e) = inr (e, refl)
