-- ===== src/Theme.antt =====
-- The theme of the application: frontend/src/app/core/theme.service.ts. The preference lives in the
-- browser's storage, which is a parameter; the document is the part of it that the service writes.
use mailserver_ui.Common.{
  ℕ, ◌+◌, String, Bool, true, false, Option, none, some, or_else, List, [], ◌∷◌, if◌then◌else◌,
  ◌==◌, not, filter, any, find, str_eq,
}
pub mod Stored
pub mod Document

pub data ThemeMode : Type 0 where
  light dark auto : ThemeMode

pub data ResolvedTheme : Type 0 where
  light dark : ResolvedTheme

-- `localStorage`, by what its methods do on one key. A read that throws is `none`, and so is a write.
-- A document without a window reads `some none` and leaves the store as it is.
pub record WebStorage : Type 1 where
  pub Store : Type 0
  pub get_item : Store → String → Option (Option String)
  pub set_item : Store → String → String → Option Store

-- What the document shows: `data-bs-theme`, the content of the meta tag where the page has one, and
-- whether the class of the transition is on.
pub record Root : Type 0 where
  pub bs_theme : Option ResolvedTheme
  pub theme_color : Option String
  pub transition : Bool

pub record Theme (Store : Type 0) : Type 0 where
  pub store : Store
  pub system_prefers_dark : Bool
  pub mode : ThemeMode
  pub listening : Bool
  -- the theme that the effect has seen last, `none` before its first pass
  pub seen : Option ResolvedTheme
  pub root : Root
  -- the timers of the browser that are pending, and the id of the next one
  pub timers : List ℕ
  pub next_timer : ℕ
  pub transition_timer : Option ℕ

abbrev pub storage_key : String
storage_key = "mailserver-ui-theme"

unfoldable pub mode_text : ThemeMode → String
mode_text light = "light"
mode_text dark = "dark"
mode_text auto = "auto"

abbrev pub theme_modes : List ThemeMode
theme_modes = light ∷ dark ∷ auto ∷ []

-- `isThemeMode(value)`, true where a mode is found, with the value as that mode.
unfoldable pub mode_of : Option String → Option ThemeMode
unfolding mode_text
mode_of none = none
mode_of (some value) = find (λ m. str_eq (mode_text m) value) theme_modes

unfoldable pub theme_color_of : ResolvedTheme → String
theme_color_of ResolvedTheme.light = "#eef1f6"
theme_color_of ResolvedTheme.dark = "#0d1220"

unfoldable pub resolve : ThemeMode → Bool → ResolvedTheme
resolve auto prefers_dark = if prefers_dark then ResolvedTheme.dark else ResolvedTheme.light
resolve light prefers_dark = ResolvedTheme.light
resolve dark prefers_dark = ResolvedTheme.dark

unfoldable pub is_dark : ResolvedTheme → Bool
is_dark ResolvedTheme.light = false
is_dark ResolvedTheme.dark = true

abbrev pub same_theme : ResolvedTheme → Option ResolvedTheme → Bool
same_theme ResolvedTheme.light (some ResolvedTheme.light) = true
same_theme ResolvedTheme.dark (some ResolvedTheme.dark) = true
same_theme t u = false

-- `clearTimeout(id)`: an id that is not pending, or `undefined`, changes nothing.
abbrev pub clear_timeout : Option ℕ → List ℕ → List ℕ
clear_timeout none timers = timers
clear_timeout (some i) timers = filter (λ j. not (j == i)) timers

abbrev pub sync_theme_color : ResolvedTheme → Option String → Option String
sync_theme_color theme none = none
sync_theme_color theme (some content) = some (theme_color_of theme)

abbrev pub is_initial : Option ResolvedTheme → Bool
is_initial none = true
is_initial (some theme) = false

module _ {Store : Type 0} where
  unfoldable pub resolved_theme : Theme Store → ResolvedTheme
  resolved_theme s = resolve s.mode s.system_prefers_dark

  unfoldable pub is_dark_mode : Theme Store → Bool
  is_dark_mode s = is_dark (resolved_theme s)

  unfoldable pub play_transition : Theme Store → Theme Store
  play_transition s = record s {
    root = record s.root { transition = true };
    timers = s.next_timer ∷ clear_timeout s.transition_timer s.timers;
    next_timer = s.next_timer + 1;
    transition_timer = some s.next_timer;
  }

  -- The callback of the timer `i`, which the browser runs when it is pending.
  unfoldable pub timer_fires : ℕ → Theme Store → Theme Store
  timer_fires i s =
      if any (λ j. j == i) s.timers
      then record s {
        root = record s.root { transition = false };
        timers = filter (λ j. not (j == i)) s.timers;
      }
      else s

  unfoldable pub set_attributes : ResolvedTheme → Theme Store → Theme Store
  set_attributes theme s = record s {
    root = record s.root {
      bs_theme = some theme;
      theme_color = sync_theme_color theme s.root.theme_color;
    };
  }

  unfoldable pub apply_theme : ResolvedTheme → Bool → Theme Store → Theme Store
  unfolding play_transition set_attributes
  apply_theme theme animate s = set_attributes theme (if animate then play_transition s else s)

  -- A pass of the effect: it runs when the resolved theme is not the one it has seen last, and
  -- animates but for its first pass.
  unfoldable pub run_effect : Theme Store → Theme Store
  unfolding apply_theme resolved_theme
  run_effect s =
      if same_theme (resolved_theme s) s.seen
      then s
      else record (apply_theme (resolved_theme s) (not (is_initial s.seen)) s) {
        seen = some (resolved_theme s);
      }

  -- The listener of the media query.
  unfoldable pub on_change : Bool → Theme Store → Theme Store
  on_change prefers_dark s =
      if s.listening then record s { system_prefers_dark = prefers_dark } else s

  unfoldable pub on_destroy : Theme Store → Theme Store
  on_destroy s =
      if s.listening
      then record s { listening = false; timers = clear_timeout s.transition_timer s.timers }
      else s

module _ (storage : WebStorage) where
  open storage use {Store, get_item, set_item}

  unfoldable pub read_stored_mode : Store → ThemeMode
  unfolding mode_of
  read_stored_mode w = or_else (mode_of (or_else (get_item w storage_key) none)) auto

  -- A write that throws leaves the store as it is, and the theme applies for the session.
  unfoldable pub persist_mode : ThemeMode → Store → Store
  unfolding mode_text
  persist_mode m w = or_else (set_item w storage_key (mode_text m)) w

  unfoldable pub set_theme_mode : ThemeMode → Theme Store → Theme Store
  unfolding persist_mode
  set_theme_mode m s = record s { mode = m; store = persist_mode m s.store }

  unfoldable pub toggle : Theme Store → Theme Store
  unfolding set_theme_mode is_dark_mode
  toggle s = set_theme_mode (if is_dark_mode s then light else dark) s

  -- The service when the application starts on a document that has a meta tag or not, `query` being
  -- the answer of `matchMedia` where the browser has it.
  unfoldable pub start : Store → Option Bool → Option String → Theme Store
  unfolding read_stored_mode
  start w query color = record {
    store = w;
    system_prefers_dark = elim query [ none ↦ false | some matches ↦ matches ];
    mode = read_stored_mode w;
    listening = elim query [ none ↦ false | some matches ↦ true ];
    seen = none;
    root = record { bs_theme = none; theme_color = color; transition = false };
    timers = [];
    next_timer = 0;
    transition_timer = none;
  }
