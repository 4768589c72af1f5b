-- ===== src/Layout/Theming.antt =====
-- The button for the theme: web/src/components/app/AppHeader.tsx with web/src/store/preferences.ts.
use go_drive.Base.{String, Bool, true, false, ◌||◌, ◌&&◌, Option, some, truthy, ◌≡◌, refl}
use go_drive.Preferences as Preferences
use go_drive.Preferences.{
  Theme, light, dark, system, Prefs, Preferences, boot, left_behind, read_stored, apply_theme,
  is_dark, is_system,
}
use go_drive.Layout.Header.{next_theme, toggle_theme, icon_of, Icon, sun, moon}

abbrev pub is_sun : Icon → Bool
is_sun sun = true
is_sun moon = false

dark_next :
    (prefers_dark : Bool) (t : Theme)
    → (is_dark (next_theme t) || (is_system (next_theme t) && prefers_dark))
      ≡ is_sun (icon_of (next_theme t))
unfolding next_theme icon_of
dark_next d light = refl
dark_next d dark = refl
dark_next d system = refl

next_thrice : (t : Theme) → next_theme (next_theme (next_theme t)) ≡ next_theme t
unfolding next_theme
next_thrice light = refl
next_thrice dark = refl
next_thrice system = refl

-- Once the button for the theme was pressed, the document is dark exactly if the button shows the sun, a
-- page that loads reads the theme that was chosen, and two more presses lead back to it. Themes are
-- taken to be read as they were printed, and not to be printed as the empty text.
pub toggle_theme_lem :
    (print_theme : Theme → String) (print_prefs : Prefs → String)
    (parse_theme : String → Option Theme) (parse_prefs : String → Option Prefs)
    → ((t : Theme) → parse_theme (print_theme t) ≡ some t)
    → ((t : Theme) → truthy (print_theme t) ≡ true)
    → (prefers_dark : Bool) (s : Preferences)
    → let s' = toggle_theme print_theme print_prefs prefers_dark s in
      (s'.document_dark ≡ is_sun (icon_of s'.theme))
      × ((boot parse_theme parse_prefs (left_behind s')).theme ≡ s'.theme)
      × ((toggle_theme print_theme print_prefs prefers_dark
            (toggle_theme print_theme print_prefs prefers_dark s')).theme
          ≡ s'.theme)
unfolding toggle_theme Preferences.set_theme apply_theme boot read_stored
toggle_theme_lem pt pp rt rp h k d s = (
  dark_next d s.theme,
  rw (k (next_theme s.theme), h (next_theme s.theme)) refl,
  next_thrice s.theme,
)
