-- ===== src/Tests/Theme.antt =====
-- The theme, with a store that holds one text, or refuses writes.
use mailserver_ui.Common.{
  String, true, false, Option, none, some, [], ◌∷◌, ◌≡◌, arith, if◌then◌else◌, is_null,
}
use mailserver_ui.Theme.{
  WebStorage, Theme, dark, start, set_theme_mode, run_effect, resolved_theme, storage_key,
  mode_text,
}
use mailserver_ui.Theme.Stored.{start-set_theme_mode}
use mailserver_ui.Theme.Document.{
  toggles, changes, renders, fires, IsTimed, IsColored, on_events, on_events-shown,
}

abbrev memory : WebStorage
memory = record {
  Store = Option String;
  get_item = λ w k. some w;
  set_item = λ w k v. some (some v);
}

reads_back :
    (w v : Option String) (x : String)
    → memory.set_item w storage_key x ≡ some v
    → memory.get_item v storage_key ≡ some (some x)
reads_back w v x h = ground arith

abbrev opened : Theme (Option String)
opened = start memory (some "light") (some true) (some "#fff")

start-set_theme_mode_example :
    (start memory (set_theme_mode memory dark opened).store none none).mode ≡ (
      if is_null (memory.set_item opened.store storage_key (mode_text dark))
      then (start memory opened.store none none).mode
      else dark)
start-set_theme_mode_example = start-set_theme_mode memory reads_back dark opened none none

on_events-shown_example :
    let s = run_effect (
      on_events memory
        (renders ∷ toggles ∷ renders ∷ fires 0 ∷ changes true ∷ [])
        (start memory (some "auto") (some false) (some "#fff"))) in
    (s.root.bs_theme ≡ some (resolved_theme s))
    × (IsColored (some "#fff") (resolved_theme s) s.root.theme_color × IsTimed s)
on_events-shown_example =
    on_events-shown memory (some "auto") (some false) (some "#fff")
      (renders ∷ toggles ∷ renders ∷ fires 0 ∷ changes true ∷ [])
