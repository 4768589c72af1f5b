-- ===== src/Layout/Tests.antt =====
-- Concrete presses and addresses of the frame.
use go_drive.Base.{
  String, Bool, true, false, Option, none, some, List, [], ◌∷◌, get, ◌==◌, ◌≡◌, refl, truthy,
  if◌then◌else◌,
}
use go_drive.Files.Batch as Batch
use go_drive.Files.Page.{open_page, is_searching, PageState}
use go_drive.Preferences.{Preferences, dark, light, system, boot, Theme, Prefs, left_behind}
use go_drive.Layout.{
  highlighted, path_of, files, open_shell, presses, open_menu, toggle, link, wide, avatar,
}
use go_drive.Layout.Header.{search_address, params_of, toggle_theme, icon_of}
use go_drive.Layout.Arrivals.{search_lem, arrive}
use go_drive.Layout.Theming.{toggle_theme_lem, is_sun}

-- The page of one folder, without a search.
abbrev shown_page : PageState
shown_page = open_page (("folder", "f1") ∷ []) none Batch.initial

abbrev after_search : PageState
after_search =
    arrive (params_of (λ s. s) (search_address (λ s. s) " report ")) none Batch.initial
      (some shown_page)

search_lem_example :
    (get after_search.search_params "q" ≡ some "report") × (is_searching after_search ≡ false)
unfolding go_drive.Base.trim is_searching get
search_lem_example =
    search_lem (λ s. s) (λ s. s) (λ s. refl) " report " none Batch.initial (some shown_page)

abbrev print_theme : Theme → String
print_theme light = "l"
print_theme dark = "d"
print_theme system = "s"

abbrev parse_theme : String → Option Theme
parse_theme s =
    if s == "l"
    then some light
    else if s == "d"
    then some dark
    else if s == "s"
    then some system
    else none

abbrev print_prefs : Prefs → String
print_prefs p = ""

abbrev parse_prefs : String → Option Prefs
parse_prefs s = none

theme_reread : (t : Theme) → parse_theme (print_theme t) ≡ some t
theme_reread light = refl
theme_reread dark = refl
theme_reread system = refl

theme_printed : (t : Theme) → truthy (print_theme t) ≡ true
theme_printed light = refl
theme_printed dark = refl
theme_printed system = refl

abbrev first : Preferences
first = boot parse_theme parse_prefs (record { theme = some "s"; prefs = none })

abbrev toggled : Preferences
toggled = toggle_theme print_theme print_prefs true first

toggle_theme_lem_example :
    (toggled.document_dark ≡ is_sun (icon_of toggled.theme))
    × ((boot parse_theme parse_prefs (left_behind toggled)).theme ≡ toggled.theme)
    × ((toggle_theme print_theme print_prefs true
          (toggle_theme print_theme print_prefs true toggled)).theme
        ≡ toggled.theme)
toggle_theme_lem_example =
    toggle_theme_lem print_theme print_prefs parse_theme parse_prefs theme_reread theme_printed true
      first

menu_closed :
    (presses (open_shell (some "1")) (open_menu ∷ toggle ∷ link "/" ∷ [])).mobile_open ≡ false
unfolding presses go_drive.Layout.press
menu_closed = refl

no_name : avatar none ≡ "U"
unfolding avatar
no_name = refl
