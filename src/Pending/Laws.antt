-- ===== src/Pending/Laws.antt =====
-- The badge keeps in step with the server.
use mailserver_ui.Common.{
  String, Bool, false, none, some, List, [], ◌∷◌, ◌≡◌, ◌≢◌, refl, arith, filter, not, str_eq, All,
  str_eq_iff,
}
use mailserver_ui.Async.{Result, ok, err, Server, run}
use mailserver_ui.Models.{PendingAction, PendingActionsSummary}
use mailserver_ui.Api.{Call, Reply, pending, dismiss, restart}
use mailserver_ui.Pending.{Bell, restart_error_message, dismiss_item, on_restart}

-- The bell after an answer to a restart.
abbrev pub restarted : Bell → Result PendingActionsSummary → Bell
restarted b (ok summary) = record {
  items = summary.items;
  restarting = false;
  restart_error = none;
}
restarted b (err e) = record {
  items = b.items;
  restarting = false;
  restart_error = some (restart_error_message e);
}

gone :
    (key : String) (items : List PendingAction)
    → All (λ item. item.key ≢ key) (filter (λ item. not (str_eq item.key key)) items)
gone key [] = tt
gone key (item ∷ items) = ground (arith, str_eq_iff item.key key, gone key items)

kept :
    (key : String) (p : PendingAction → Bool)
    → ((item : PendingAction) → item.key ≡ key → p item ≡ false)
    → (items : List PendingAction)
    → filter p (filter (λ item. not (str_eq item.key key)) items) ≡ filter p items
kept key p h [] = refl
kept key p h (item ∷ items) = ground (arith, str_eq_iff item.key key, h item, kept key p h items)

module _ (srv : Server Call Reply) (b : Bell) (w : srv.World) where
  open srv use {reply, after}

  -- A restart never fails towards the page: on success the items are what the server still lists,
  -- on failure they stay and the reason is shown; the spinner is off either way.
  pub on_restart-eq :
      run srv on_restart b w
      ≡ (ok tt, restarted b (reply w (pending restart)), after w (pending restart))
  unfolding run on_restart
  on_restart-eq = ground arith

  dismissed-eq :
      (key : String)
      → reply w (pending (dismiss key)) ≡ ok tt
      → (run srv (dismiss_item key) b w).1.items
        ≡ filter (λ item. not (str_eq item.key key)) b.items
  unfolding run dismiss_item
  dismissed-eq key h = ground arith

  -- Once the server has agreed, dismissing a key leaves no item of that key, and all items of other
  -- keys in their order: whatever is looked for among those is found as before.
  pub dismiss_item_lem :
      (key : String) (p : PendingAction → Bool)
      → ((item : PendingAction) → item.key ≡ key → p item ≡ false)
      → reply w (pending (dismiss key)) ≡ ok tt
      → let left = (run srv (dismiss_item key) b w).1.items in
        All (λ item. item.key ≢ key) left × (filter p left ≡ filter p b.items)
  dismiss_item_lem key p q h = rw (dismissed-eq key h) (gone key b.items, kept key p q b.items)
