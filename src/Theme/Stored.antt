-- ===== src/Theme/Stored.antt =====
-- The preference that is read back when the application starts again.
use mailserver_ui.Common.{
  String, Bool, Option, some, ◌≡◌, ◌↔◌, refl, sym, ap, ◌∙◌, str_eq_iff, Option-cases, is_null, inl,
  inr, arith, not, if◌then◌else◌,
}
use mailserver_ui.Theme.{
  ThemeMode, light, dark, auto, WebStorage, Theme, storage_key, mode_text, mode_of, resolve,
  resolved_theme, is_dark, is_dark_mode, persist_mode, read_stored_mode, set_theme_mode, toggle,
  start,
}

mode_of-mode_text : (m : ThemeMode) → mode_of (some (mode_text m)) ≡ some m
unfolding mode_of mode_text
mode_of-mode_text light = refl
mode_of-mode_text dark = refl
mode_of-mode_text auto = refl

mode_of_sound : (v : String) (m : ThemeMode) → mode_of (some v) ≡ some m → mode_text m ≡ v
unfolding mode_of mode_text
mode_of_sound v m h = ground (arith, str_eq_iff "light" v, str_eq_iff "dark" v, str_eq_iff "auto" v)

-- Of all the texts that the store may hold, the three names of the modes are read as these modes,
-- and no other text is.
pub mode_of_iff : (v : String) (m : ThemeMode) → (mode_of (some v) ≡ some m) ↔ (v ≡ mode_text m)
mode_of_iff v m =
    (λ h. sym (mode_of_sound v m h), λ e. ap (λ x. mode_of (some x)) e ∙ mode_of-mode_text m)

module _ (storage : WebStorage)
    (read_back : (w v : storage.Store) (x : String)
      → storage.set_item w storage_key x ≡ some v
      → storage.get_item v storage_key ≡ some (some x)) where
  -- A mode that the store accepts is the mode of the next start, whatever the system prefers; where
  -- the store refuses the write, the next start has the mode that a start before had.
  pub start-set_theme_mode :
      (m : ThemeMode) (s : Theme storage.Store) (query : Option Bool) (color : Option String)
      → (start storage (set_theme_mode storage m s).store query color).mode ≡ (
          if is_null (storage.set_item s.store storage_key (mode_text m))
          then (start storage s.store query color).mode
          else m)
  unfolding start set_theme_mode read_stored_mode persist_mode
  start-set_theme_mode m s query color =
      elim (Option-cases (storage.set_item s.store storage_key (mode_text m))) [
        | inl e ↦ rw e refl
        | inr (v, e) ↦ rw (e, read_back s.store v (mode_text m) e, mode_of-mode_text m)
      ]

-- The toggle shows the other theme at once and keeps it whatever the system prefers from then on,
-- and a second toggle goes back to the theme before it.
pub toggle-resolved :
    (storage : WebStorage) (s : Theme storage.Store) (prefers_dark : Bool)
    → (is_dark (resolve (toggle storage s).mode prefers_dark) ≡ not (is_dark_mode s))
      × (resolve (toggle storage (toggle storage s)).mode prefers_dark ≡ resolved_theme s)
unfolding toggle set_theme_mode resolved_theme is_dark_mode is_dark resolve
toggle-resolved storage s prefers_dark = ground arith
