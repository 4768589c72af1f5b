-- ===== src/Preferences/Reload.antt =====
-- What a page load reads of the preferences of web/src/store/preferences.ts.
use go_drive.Base.{String, Bool, true, false, Option, some, List, [], ◌∷◌, truthy, ◌≡◌, refl}
use go_drive.Preferences.{
  Theme, light, dark, Prefs, Preferences, Stored, Change, theme_to, pref_to, appearance_page,
  default_prefs, read_stored, boot, set_theme, set_notification_pref, apply_theme, set_pref, change,
  changes, left_behind,
}

read_stored-written :
    {T : Type 0} (parse : String → Option T) (raw : String) (fallback a : T)
    → truthy raw ≡ true
    → parse raw ≡ some a
    → read_stored parse (some raw) fallback ≡ a
unfolding read_stored
read_stored-written parse raw fallback a h k = rw (h, k) refl

module _ (parse_theme : String → Option Theme) (parse_prefs : String → Option Prefs)
    (print_theme : Theme → String) (print_prefs : Prefs → String)
    (theme_reread : (t : Theme) → parse_theme (print_theme t) ≡ some t)
    (prefs_reread : (p : Prefs) → parse_prefs (print_prefs p) ≡ some p)
    (theme_printed : (t : Theme) → truthy (print_theme t) ≡ true)
    (prefs_printed : (p : Prefs) → truthy (print_prefs p) ≡ true) where
  -- What is stored reads as what is there.
  abbrev IsSaved : Preferences → Type 0
  IsSaved s =
      (read_stored parse_theme s.stored_theme light ≡ s.theme)
      × (read_stored parse_prefs s.stored_prefs default_prefs ≡ s.prefs)

  change-IsSaved :
      (s : Preferences) (c : Change) → IsSaved s → IsSaved (change print_theme print_prefs s c)
  unfolding change set_theme set_notification_pref apply_theme
  change-IsSaved s (theme_to prefers_dark t) h = (
    read_stored-written parse_theme (print_theme t) light t (theme_printed t) (theme_reread t),
    h.1,
  )
  change-IsSaved s (pref_to key value) h =
      let p = set_pref key value s.prefs in
      (
        h.0,
        read_stored-written parse_prefs (print_prefs p) default_prefs p (prefs_printed p)
            (prefs_reread p),
      )
  change-IsSaved s (appearance_page prefers_dark) h = h

  changes-IsSaved :
      (s : Preferences) (cs : List Change)
      → IsSaved s
      → IsSaved (changes print_theme print_prefs s cs)
  unfolding changes
  changes-IsSaved s [] h = h
  changes-IsSaved s (c ∷ cs) h =
      changes-IsSaved (change print_theme print_prefs s c) cs (change-IsSaved s c h)

  -- Whatever is stored at first and whatever the user changes, a later page load has the theme and
  -- the flags that were there last, provided that what JSON.stringify writes is not empty and is
  -- read back by JSON.parse.
  pub changes_reload :
      (found : Stored) (cs : List Change)
      → let s = changes print_theme print_prefs (boot parse_theme parse_prefs found) cs in
        let again = boot parse_theme parse_prefs (left_behind s) in
        (again.theme ≡ s.theme) × (again.prefs ≡ s.prefs)
  unfolding boot
  changes_reload found cs = changes-IsSaved (boot parse_theme parse_prefs found) cs (refl, refl)

  -- The dark theme is on as soon as it is chosen; a later page load knows it as the theme, but shows
  -- the document without it until the effect of the appearance page runs.
  pub dark_lost :
      (s : Preferences) (prefers_dark : Bool)
      → let chosen = set_theme print_theme print_prefs prefers_dark dark s in
        let again = boot parse_theme parse_prefs (left_behind chosen) in
        (chosen.document_dark ≡ true)
        × (again.theme ≡ dark)
        × (again.document_dark ≡ false)
        × ((apply_theme prefers_dark again.theme again).document_dark ≡ true)
  unfolding boot set_theme apply_theme
  dark_lost s prefers_dark =
      let reread =
        read_stored-written parse_theme (print_theme dark) light dark (theme_printed dark)
          (theme_reread dark) in
      (refl, reread, refl, rw reread refl)
