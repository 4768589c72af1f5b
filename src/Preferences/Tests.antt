-- ===== src/Preferences/Tests.antt =====
-- Concrete preferences, written as texts of one letter for a theme and four for the flags.
use Prim.Native.String
use Prim.Native.Char.{Char, code}
use go_drive.Base.{
  [], ◌∷◌, List, leb, String, Bool, true, false, Option, none, some, ◌≡◌, refl, truthy, ◌==◌,
  if◌then◌else◌, List,
}
use go_drive.Preferences.{
  theme_to, pref_to, downloads_key, Theme, light, dark, system, Prefs, Preferences, Stored, Change,
  boot, theme_to,
}

abbrev print_theme : Theme → String
print_theme light = "l"
print_theme dark = "d"
print_theme system = "s"

abbrev parse_theme : String → Option Theme
parse_theme s =
    if s == "l"
    then some light
    else if s == "d"
    then some dark
    else if s == "s"
    then some system
    else none

theme_reread : (t : Theme) → parse_theme (print_theme t) ≡ some t
theme_reread light = refl
theme_reread dark = refl
theme_reread system = refl

theme_printed : (t : Theme) → truthy (print_theme t) ≡ true
theme_printed light = refl
theme_printed dark = refl
theme_printed system = refl

-- A flag is one letter.
abbrev letter : Option Bool → Char
letter none = "u"
letter (some true) = "t"
letter (some false) = "f"

abbrev flag_of : Char → Option Bool
flag_of c = if leb (code c) 102 then some false else if leb (code c) 116 then some true else none

flag_of-letter : (b : Option Bool) → flag_of (letter b) ≡ b
flag_of-letter none = refl
flag_of-letter (some true) = refl
flag_of-letter (some false) = refl

abbrev print_prefs : Prefs → String
print_prefs p = String.◌∷◌ (letter p.share_activity) (
    String.◌∷◌ (letter p.downloads)
      (String.◌∷◌ (letter p.new_members) (String.◌∷◌ (letter p.storage) String.[])))

abbrev parse_prefs : String → Option Prefs
parse_prefs (String.◌∷◌ a (String.◌∷◌ b (String.◌∷◌ c (String.◌∷◌ d rest)))) = some (record {
  share_activity = flag_of a;
  downloads = flag_of b;
  new_members = flag_of c;
  storage = flag_of d;
})
parse_prefs _ = none

prefs_reread : (p : Prefs) → parse_prefs (print_prefs p) ≡ some p
prefs_reread p =
    rw
      (
        flag_of-letter p.share_activity,
        flag_of-letter p.downloads,
        flag_of-letter p.new_members,
        flag_of-letter p.storage,
      )
      refl

truthy-cons : (c : Char) (s : String) → truthy (String.◌∷◌ c s) ≡ true
truthy-cons c s = rw String.compare.cons-nil refl

prefs_printed : (p : Prefs) → truthy (print_prefs p) ≡ true
prefs_printed p = truthy-cons _ _

abbrev nothing_stored : Stored
nothing_stored = record { theme = none; prefs = none }

abbrev evening : List Change
evening = theme_to false dark ∷ pref_to downloads_key false ∷ []

abbrev loaded : Preferences
loaded = boot parse_theme parse_prefs nothing_stored
