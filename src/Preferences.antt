-- ===== src/Preferences.antt =====
-- Preferences in the local storage: web/src/store/preferences.ts, with the effect of
-- SettingsAppearancePage.tsx, and web/src/lib/useSidebarCollapsed.ts.
-- `JSON.parse` and `JSON.stringify` are parameters, at the two types that the store reads.
pub mod Reload
pub mod Sidebar
pub mod Notifications
mod Tests
use go_drive.Base.{
  String, Bool, true, false, ◌||◌, ◌&&◌, Option, none, some, List, [], ◌∷◌, truthy, if◌then◌else◌,
}

pub data Theme : Type 0 where
  light dark system : Theme

-- The flags; one that the stored text lacks is undefined.
pub record Prefs : Type 0 where
  pub share_activity : Option Bool
  pub downloads : Option Bool
  pub new_members : Option Bool
  pub storage : Option Bool

pub data PrefKey : Type 0 where
  share_activity_key downloads_key new_members_key storage_key : PrefKey

abbrev pub default_prefs : Prefs
default_prefs = record {
  share_activity = some true;
  downloads = some true;
  new_members = some true;
  storage = some true;
}

-- The store, its two entries of the local storage, and the class `dark` of the document.
pub record Preferences : Type 0 where
  pub theme : Theme
  pub prefs : Prefs
  pub stored_theme : Option String
  pub stored_prefs : Option String
  pub document_dark : Bool

abbrev or_fallback {ℓ} : {A : Type ℓ} → Option A → A → A
or_fallback none fallback = fallback
or_fallback (some a) fallback = a

-- `readStored`, for a parser that may fail.
unfoldable pub read_stored {ℓ} : {T : Type ℓ} → (String → Option T) → Option String → T → T
read_stored parse none fallback = fallback
read_stored parse (some raw) fallback =
    if truthy raw then or_fallback (parse raw) fallback else fallback

abbrev pub is_dark : Theme → Bool
is_dark dark = true
is_dark _ = false

abbrev pub is_system : Theme → Bool
is_system system = true
is_system _ = false

-- `applyTheme`, for what the browser prefers.
unfoldable pub apply_theme : Bool → Theme → Preferences → Preferences
apply_theme prefers_dark theme s = record s {
  document_dark = is_dark theme || (is_system theme && prefers_dark);
}

-- `[key]: value`.
unfoldable pub set_pref : PrefKey → Bool → Prefs → Prefs
set_pref share_activity_key value p = record p { share_activity = some value }
set_pref downloads_key value p = record p { downloads = some value }
set_pref new_members_key value p = record p { new_members = some value }
set_pref storage_key value p = record p { storage = some value }

-- What a page load finds in the local storage.
pub record Stored : Type 0 where
  pub theme : Option String
  pub prefs : Option String

module _ (parse_theme : String → Option Theme) (parse_prefs : String → Option Prefs) where
  -- The module as it is loaded; nothing is applied to the document yet.
  unfoldable pub boot : Stored → Preferences
  unfolding read_stored
  boot found = record {
    theme = read_stored parse_theme found.theme light;
    prefs = read_stored parse_prefs found.prefs default_prefs;
    stored_theme = found.theme;
    stored_prefs = found.prefs;
    document_dark = false;
  }

-- What the user changes, and the effect of the appearance page, which applies the theme; each with
-- what the browser prefers.
pub data Change : Type 0 where
  theme_to : Bool → Theme → Change
  pref_to : PrefKey → Bool → Change
  appearance_page : Bool → Change

module _ (print_theme : Theme → String) (print_prefs : Prefs → String) where
  unfoldable pub set_theme : Bool → Theme → Preferences → Preferences
  unfolding apply_theme
  set_theme prefers_dark theme s =
      record (apply_theme prefers_dark theme
        (record s { stored_theme = some (print_theme theme) })) { theme = theme }

  unfoldable pub set_notification_pref : PrefKey → Bool → Preferences → Preferences
  unfolding set_pref
  set_notification_pref key value s = record s {
    stored_prefs = some (print_prefs (set_pref key value s.prefs));
    prefs = set_pref key value s.prefs;
  }

  unfoldable pub change : Preferences → Change → Preferences
  unfolding set_theme set_notification_pref apply_theme
  change s (theme_to prefers_dark theme) = set_theme prefers_dark theme s
  change s (pref_to key value) = set_notification_pref key value s
  change s (appearance_page prefers_dark) = apply_theme prefers_dark s.theme s

  unfoldable pub changes : Preferences → List Change → Preferences
  changes s [] = s
  changes s (c ∷ cs) = changes (change s c) cs

-- What a later page load finds.
abbrev pub left_behind : Preferences → Stored
left_behind s = record { theme = s.stored_theme; prefs = s.stored_prefs }
