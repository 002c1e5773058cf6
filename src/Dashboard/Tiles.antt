-- ===== src/Dashboard/Tiles.antt =====
-- Each tile ends with what its own endpoint answered.
use mailserver_ui.Common.{Bool, false, none, some, refl}
use mailserver_ui.Async.{
  Result, ok, err, pure, throw, get, put, call, choose, ◌>>=◌, try_catch, modify, Server,
}
use mailserver_ui.Async.Parallel.{Outcome, Keeps, Sets}
use mailserver_ui.Async.Parallel.Laws.{KeepsAlways}
use mailserver_ui.Api.{Call, Reply}
use mailserver_ui.Mailserver.Texts.{mailserver_error_message}
use mailserver_ui.Dashboard.{Tile, Page, Fetch, load_tile}

-- The tile that shows an answer.
abbrev pub tile_of : {T : Type 0} → Result T → Tile T
tile_of (ok value) = record { data_of = some value; error = none; loading = false }
tile_of (err e) = record {
  data_of = none;
  error = some (mailserver_error_message e);
  loading = false;
}

-- A task that only calls the server.
abbrev pub IsQuiet : {T : Type 0} → Fetch T → Type 0
IsQuiet (pure a) = Unit
IsQuiet (throw e) = Unit
IsQuiet (get k) = ⊥
IsQuiet (put s t) = ⊥
IsQuiet (call q k) = (r : Result (Reply q)) → IsQuiet (k r)
IsQuiet (choose k) = (b : Bool) → IsQuiet (k b)

module _ (srv : Server Call Reply) (P : Page → Type 0) {T : Type 0}
    (set : Tile T → Page → Page) where
  fetch-Keeps :
      (fetch : Fetch T)
      → IsQuiet fetch
      → ((t : Tile T) (s : Page) → P s → P (set t s))
      → (s : Page)
      → Keeps srv P
          (try_catch
            (fetch >>= λ value. modify (set (tile_of (ok value))))
            (λ e. modify (set (tile_of (err e)))))
          s
  fetch-Keeps (pure a) h keep s = (keep _ s, tt)
  fetch-Keeps (throw e) h keep s = (keep _ s, tt)
  fetch-Keeps (get k) h keep s = absurd h
  fetch-Keeps (put s' t) h keep s = absurd h
  fetch-Keeps (call q k) h keep s =
      λ w s'. fetch-Keeps (k (srv.reply w q)) (h (srv.reply w q)) keep s'
  fetch-Keeps (choose k) h keep s = λ b. fetch-Keeps (k b) (h b) keep s

  fetch-Sets :
      (fetch : Fetch T)
      → ((r : Result T) → Outcome srv fetch r → (s : Page) → P (set (tile_of r) s))
      → (s : Page)
      → Sets srv P
          (try_catch
            (fetch >>= λ value. modify (set (tile_of (ok value))))
            (λ e. modify (set (tile_of (err e)))))
          s
  fetch-Sets (pure a) h s = h (ok a) refl s
  fetch-Sets (throw e) h s = h (err e) refl s
  fetch-Sets (get k) h s = fetch-Sets (k s) (λ r o. h r (s, o)) s
  fetch-Sets (put s' t) h s = fetch-Sets t h s'
  fetch-Sets (call q k) h s = λ w s' i. fetch-Sets (k (srv.reply w q)) (λ r o. h r (w, o)) s'
  fetch-Sets (choose k) h s = λ b. fetch-Sets (k b) (λ r o. h r (b, o)) s

  pub load_tile-Keeps :
      (fetch : Fetch T)
      → IsQuiet fetch
      → ((t : Tile T) (s : Page) → P s → P (set t s))
      → KeepsAlways srv P (load_tile set fetch)
  unfolding load_tile
  load_tile-Keeps fetch h keep s = (keep _ s, fetch-Keeps fetch h keep _)

  pub load_tile-Sets :
      (fetch : Fetch T)
      → ((r : Result T) → Outcome srv fetch r → (s : Page) → P (set (tile_of r) s))
      → (s : Page) → Sets srv P (load_tile set fetch) s
  unfolding load_tile
  load_tile-Sets fetch h s = fetch-Sets fetch h _
