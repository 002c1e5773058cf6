-- ===== src/Theme/Document.antt =====
-- What the document shows after any sequence of events.
use mailserver_ui.Common.{
  ℕ, String, Bool, true, false, Option, none, some, List, [], ◌∷◌, ◌≡◌, ◌⊎◌, inl, inr, refl, arith,
  not, ◌∙◌, sym, if◌then◌else◌, filter, ◌==◌, ap, any, is_null,
}
use mailserver_ui.Theme.{
  ThemeMode, ResolvedTheme, WebStorage, Theme, resolved_theme, theme_color_of, resolve, toggle,
  set_theme_mode, run_effect, apply_theme, play_transition, set_attributes, timer_fires, on_change,
  start, same_theme, is_initial, sync_theme_color, clear_timeout,
}

-- What happens while the application runs: a mode is chosen, the button toggles, the system changes
-- its preference, Angular runs the effect, a timer fires.
pub data Event : Type 0 where
  chooses : ThemeMode → Event
  toggles : Event
  changes : Bool → Event
  renders : Event
  fires : ℕ → Event

-- The class of the transition is on exactly while the one timer that takes it off is pending.
abbrev pub IsTimed : {A : Type 0} → Theme A → Type 0
IsTimed s =
    ((s.timers ≡ []) × (s.root.transition ≡ false))
    ⊎ ((i : ℕ) × ((s.timers ≡ i ∷ [])
          × ((s.transition_timer ≡ some i) × (s.root.transition ≡ true))))

-- The document shows the theme that the effect has seen.
abbrev pub IsShown : {A : Type 0} → Theme A → Type 0
IsShown s =
    (s.root.bs_theme ≡ s.seen)
    × ((s.seen ≡ none)
        ⊎ ((t : ResolvedTheme) × ((s.seen ≡ some t)
              × ((s.root.theme_color ≡ none) ⊎ (s.root.theme_color ≡ some (theme_color_of t))))))

-- The page has its meta tag or not, as it started.
abbrev IsTagged : Option String → {A : Type 0} → Theme A → Type 0
IsTagged color s = is_null s.root.theme_color ≡ is_null color

-- The address bar has the colour of the theme, if the page started with the meta tag for it.
abbrev pub IsColored : Option String → ResolvedTheme → Option String → Type 0
IsColored none theme shown = shown ≡ none
IsColored (some content) theme shown = shown ≡ some (theme_color_of theme)

tagged-IsColored :
    (color : Option String) (theme : ResolvedTheme) (shown : Option String)
    → is_null shown ≡ is_null color
    → (shown ≡ none) ⊎ (shown ≡ some (theme_color_of theme))
    → IsColored color theme shown
tagged-IsColored none theme shown h c = ground arith
tagged-IsColored (some content) theme shown h c = ground arith

is_null-sync_theme_color :
    (theme : ResolvedTheme) (color : Option String)
    → is_null (sync_theme_color theme color) ≡ is_null color
is_null-sync_theme_color theme none = refl
is_null-sync_theme_color theme (some c) = refl

same_theme_sound :
    (t : ResolvedTheme) (o : Option ResolvedTheme) → same_theme t o ≡ true → o ≡ some t
same_theme_sound t o h = ground arith

sync_theme_color_lem :
    (t : ResolvedTheme) (color : Option String)
    → (sync_theme_color t color ≡ none) ⊎ (sync_theme_color t color ≡ some (theme_color_of t))
sync_theme_color_lem t none = inl refl
sync_theme_color_lem t (some c) = inr refl

filter_self : (i : ℕ) → filter (λ j. not (j == i)) (i ∷ []) ≡ []
filter_self i = ground arith

fired : (i k : ℕ) → any (λ j. j == i) (k ∷ []) ≡ true → filter (λ j. not (j == i)) (k ∷ []) ≡ []
fired i k h = ground arith

clear_timeout-empty : (i : Option ℕ) → clear_timeout i [] ≡ []
clear_timeout-empty none = refl
clear_timeout-empty (some i) = refl

module _ {A : Type 0} where
  play_transition-IsTimed : (s : Theme A) → IsTimed s → IsTimed (play_transition s)
  unfolding play_transition
  play_transition-IsTimed s (inl (none_left, off)) = inr (
    s.next_timer,
    (
      ap (λ ts. s.next_timer ∷ ts)
          (ap (clear_timeout s.transition_timer) none_left
            ∙ clear_timeout-empty s.transition_timer),
      (refl, refl),
    ),
  )
  play_transition-IsTimed s (inr (i, (one, (mine, on)))) =
      inr
        (s.next_timer, (ap (λ ts. s.next_timer ∷ ts) (rw (mine, one, filter_self i)), (refl, refl)))

  apply_theme-IsTimed :
      (t : ResolvedTheme) (animate : Bool) (s : Theme A)
      → IsTimed s
      → IsTimed (apply_theme t animate s)
  unfolding apply_theme set_attributes
  apply_theme-IsTimed t true s h = play_transition-IsTimed s h
  apply_theme-IsTimed t false s h = h

  either :
      (P : Theme A → Type 0) (b : Bool) (s t : Theme A)
      → (b ≡ true → P s)
      → (b ≡ false → P t)
      → P (if b then s else t)
  either P true s t g h = g refl
  either P false s t g h = h refl

  timer_fires-IsTimed : (i : ℕ) (s : Theme A) → IsTimed s → IsTimed (timer_fires i s)
  unfolding timer_fires
  timer_fires-IsTimed i s (inl (gone, off)) =
      either IsTimed (any (λ j. j == i) s.timers) _ s
        (λ h. inl (ap (filter (λ j. not (j == i))) gone, refl)) (λ _. inl (gone, off))
  timer_fires-IsTimed i s (inr (k, (one, (mine, on)))) =
      either IsTimed (any (λ j. j == i) s.timers) _ s
        (λ h. inl (
          ap (filter (λ j. not (j == i))) one ∙ fired i k (ap (any (λ j. j == i)) (sym one) ∙ h),
          refl,
        ))
        (λ _. inr (k, (one, (mine, on))))

  run_effect-IsTimed : (s : Theme A) → IsTimed s → IsTimed (run_effect s)
  unfolding run_effect
  run_effect-IsTimed s h =
      either IsTimed (same_theme (resolved_theme s) s.seen) s _ (λ _. h)
        (λ _. apply_theme-IsTimed (resolved_theme s) (not (is_initial s.seen)) s h)

  run_effect-IsShown : (s : Theme A) → IsShown s → IsShown (run_effect s)
  unfolding run_effect apply_theme set_attributes
  run_effect-IsShown s h =
      either IsShown (same_theme (resolved_theme s) s.seen) s _ (λ _. h)
        (λ _. (refl, inr (resolved_theme s, (refl, sync_theme_color_lem (resolved_theme s) _))))

  apply_theme-tag :
      (theme : ResolvedTheme) (animate : Bool) (s : Theme A)
      → is_null (apply_theme theme animate s).root.theme_color ≡ is_null s.root.theme_color
  unfolding apply_theme set_attributes play_transition
  apply_theme-tag theme true s = is_null-sync_theme_color theme s.root.theme_color
  apply_theme-tag theme false s = is_null-sync_theme_color theme s.root.theme_color

  run_effect-IsTagged :
      (color : Option String) (s : Theme A) → IsTagged color s → IsTagged color (run_effect s)
  unfolding run_effect
  run_effect-IsTagged color s h =
      either (IsTagged color) (same_theme (resolved_theme s) s.seen) s _ (λ _. h)
        (λ _. apply_theme-tag (resolved_theme s) (not (is_initial s.seen)) s ∙ h)

  apply_theme_resolved :
      (theme : ResolvedTheme) (animate : Bool) (s : Theme A)
      → resolved_theme s
        ≡ resolve
            (apply_theme theme animate s).mode
            (apply_theme theme animate s).system_prefers_dark
  unfolding apply_theme set_attributes play_transition resolved_theme
  apply_theme_resolved theme true s = refl
  apply_theme_resolved theme false s = refl

  run_effect-seen : (s : Theme A) → (run_effect s).seen ≡ some (resolved_theme (run_effect s))
  unfolding run_effect resolved_theme
  run_effect-seen s =
      either (λ t. t.seen ≡ some (resolved_theme t)) (same_theme (resolved_theme s) s.seen) s _
        (same_theme_sound (resolved_theme s) s.seen)
        (λ _. ap some (apply_theme_resolved (resolved_theme s) (not (is_initial s.seen)) s))

module _ (storage : WebStorage) where
  open storage use {Store}

  unfoldable pub on_event : Event → Theme Store → Theme Store
  on_event (chooses m) s = set_theme_mode storage m s
  on_event toggles s = toggle storage s
  on_event (changes prefers_dark) s = on_change prefers_dark s
  on_event renders s = run_effect s
  on_event (fires i) s = timer_fires i s

  unfoldable pub on_events : List Event → Theme Store → Theme Store
  on_events [] s = s
  on_events (e ∷ es) s = on_events es (on_event e s)

  on_event-IsTimed : (e : Event) (s : Theme Store) → IsTimed s → IsTimed (on_event e s)
  unfolding on_event set_theme_mode toggle on_change
  on_event-IsTimed (chooses m) s h = h
  on_event-IsTimed toggles s h = h
  on_event-IsTimed (changes prefers_dark) s h = either IsTimed s.listening _ s (λ _. h) (λ _. h)
  on_event-IsTimed renders s h = run_effect-IsTimed s h
  on_event-IsTimed (fires i) s h = timer_fires-IsTimed i s h

  on_event-IsShown : (e : Event) (s : Theme Store) → IsShown s → IsShown (on_event e s)
  unfolding on_event set_theme_mode toggle on_change timer_fires
  on_event-IsShown (chooses m) s h = h
  on_event-IsShown toggles s h = h
  on_event-IsShown (changes prefers_dark) s h = either IsShown s.listening _ s (λ _. h) (λ _. h)
  on_event-IsShown renders s h = run_effect-IsShown s h
  on_event-IsShown (fires i) s h = either IsShown (any (λ j. j == i) s.timers) _ s (λ _. h) (λ _. h)

  on_event-IsTagged :
      (color : Option String) (e : Event) (s : Theme Store)
      → IsTagged color s
      → IsTagged color (on_event e s)
  unfolding on_event set_theme_mode toggle on_change timer_fires
  on_event-IsTagged color (chooses m) s h = h
  on_event-IsTagged color toggles s h = h
  on_event-IsTagged color (changes prefers_dark) s h =
      either (IsTagged color) s.listening _ s (λ _. h) (λ _. h)
  on_event-IsTagged color renders s h = run_effect-IsTagged color s h
  on_event-IsTagged color (fires i) s h =
      either (IsTagged color) (any (λ j. j == i) s.timers) _ s (λ _. h) (λ _. h)

  on_events_elim :
      (P : Theme Store → Type 0)
      → ((e : Event) (s : Theme Store) → P s → P (on_event e s))
      → (es : List Event) (s : Theme Store) → P s
      → P (on_events es s)
  unfolding on_events
  on_events_elim P keep [] s h = h
  on_events_elim P keep (e ∷ es) s h = on_events_elim P keep es (on_event e s) (keep e s h)

  start-IsShown :
      (w : Store) (query : Option Bool) (color : Option String)
      → IsShown (start storage w query color)
  unfolding start
  start-IsShown w query color = (refl, inl refl)

  start-IsTimed :
      (w : Store) (query : Option Bool) (color : Option String)
      → IsTimed (start storage w query color)
  unfolding start
  start-IsTimed w query color = inl (refl, refl)

  IsShown-color :
      (s : Theme Store)
      → IsShown s
      → s.seen ≡ some (resolved_theme s)
      → (s.root.bs_theme ≡ some (resolved_theme s))
        × ((s.root.theme_color ≡ none)
            ⊎ (s.root.theme_color ≡ some (theme_color_of (resolved_theme s))))
  IsShown-color s (e, inl gone) h = ground arith
  IsShown-color s (e, inr (t, (seen, inl c))) h = (e ∙ h, inl c)
  IsShown-color s (e, inr (t, (seen, inr c))) h = (e ∙ h, inr (c ∙ cc))

  -- After any sequence of events from the start, once the effect has run, `data-bs-theme` is the
  -- resolved theme and the address bar has the colour of that theme, exactly if the page started
  -- with the meta tag for it; and the class of the transition is on exactly while the one pending timer will take it
  -- off.
  pub on_events-shown :
      (w : Store) (query : Option Bool) (color : Option String) (es : List Event)
      → let s = run_effect (on_events es (start storage w query color)) in
        (s.root.bs_theme ≡ some (resolved_theme s))
        × (IsColored color (resolved_theme s) s.root.theme_color × IsTimed s)
  unfolding start
  on_events-shown w query color es =
      let s0 = start storage w query color in
      let s1 = on_events es s0 in
      let shown = on_events_elim IsShown on_event-IsShown es s0 (start-IsShown w query color) in
      let timed = on_events_elim IsTimed on_event-IsTimed es s0 (start-IsTimed w query color) in
      let (e, c) =
        IsShown-color (run_effect s1) (run_effect-IsShown s1 shown) (run_effect-seen s1) in
      let tag : IsTagged color s1 =
        on_events_elim (IsTagged color) (on_event-IsTagged color) es s0 refl in
      let colored = tagged-IsColored color _ _ (run_effect-IsTagged color s1 tag) c in
      (e, (colored, run_effect-IsTimed s1 timed))
