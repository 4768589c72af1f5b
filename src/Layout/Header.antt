-- ===== src/Layout/Header.antt =====
-- The top bar: web/src/components/app/AppHeader.tsx. `encodeURIComponent` is a parameter; the query
-- of an address is the list of its pairs as they are written.
use go_drive.Base.{String, Bool, [], ◌∷◌, Dict, map, truthy, trim, if◌then◌else◌}
use go_drive.Preferences as Preferences
use go_drive.Preferences.{Theme, light, dark, system, Prefs, Preferences}

pub record Address : Type 0 where
  pub path : String
  pub query : Dict String

-- `handleSubmit`.
unfoldable pub search_address : (String → String) → String → Address
search_address encode query =
    let q = trim query in
    if truthy q
    then record { path = "/app/files"; query = ("q", encode q) ∷ [] }
    else record { path = "/app/files"; query = [] }

-- What `useSearchParams` reads of the query.
abbrev pub params_of : (String → String) → Address → Dict String
params_of decode a = map (λ p. (p.0, decode p.1)) a.query

unfoldable pub next_theme : Theme → Theme
next_theme light = dark
next_theme dark = light
next_theme system = light

module _ (print_theme : Theme → String) (print_prefs : Prefs → String) where
  unfoldable pub toggle_theme : Bool → Preferences → Preferences
  toggle_theme prefers_dark s =
      Preferences.set_theme print_theme print_prefs prefers_dark (next_theme s.theme) s

pub data Icon : Type 0 where
  sun moon : Icon

unfoldable pub icon_of : Theme → Icon
icon_of dark = sun
icon_of _ = moon
