-- ===== src/Layout.antt =====
-- The frame around every page below /app: web/src/components/app/AppLayout.tsx. Which link the
-- router marks as active is a parameter.
pub mod Header
pub mod Recent
pub mod Active
pub mod Arrivals
pub mod Theming
mod Tests
use Prim.Native.String as Text
use go_drive.Base.{
  String, Bool, true, false, not, ◌||◌, Option, none, some, List, [], ◌∷◌, map, filter, truthy,
}
use go_drive.Auth.{User}
use go_drive.Preferences.Sidebar as Sidebar
use go_drive.Preferences.Sidebar.{Sidebar}

-- The pages of the frame; a preview has the identifier of its file in the address.
pub data Place : Type 0 where
  status files stores members appearance notifications links activity api_docs : Place
  preview : String → Place

unfoldable pub path_of : Place → String
path_of status = "/app/status"
path_of files = "/app/files"
path_of stores = "/app/settings/stores"
path_of members = "/app/settings/members"
path_of appearance = "/app/settings/appearance"
path_of notifications = "/app/settings/notifications"
path_of links = "/app/links"
path_of activity = "/app/activity"
path_of api_docs = "/app/api-docs"
path_of (preview id) = Text.◌++◌ "/app/files/preview/" id

-- A `NavLink` with `end`; the label is the text, or its key.
pub record Entry : Type 0 where
  pub label : String
  pub to : String

abbrev entry : String → String → Entry
entry label to = record { label = label; to = to }

unfoldable pub nav : List Entry
nav =
    entry "Home" "/"
    ∷ entry "Files" "/app/files"
    ∷ entry "Links" "/app/links"
    ∷ entry "activity.nav" "/app/activity"
    ∷ entry "Stores" "/app/settings/stores"
    ∷ entry "Members" "/app/settings/members"
    ∷ entry "Appearance" "/app/settings/appearance"
    ∷ entry "Notifications" "/app/settings/notifications"
    ∷ entry "apiDocs.nav" "/app/api-docs"
    ∷ []

-- The labels of the links that `linkClass` draws as active.
unfoldable pub highlighted : (String → String → Bool) → String → List String
highlighted is_active here = map (λ e. e.label) (filter (λ e. is_active e.to here) nav)

pub record Shell : Type 0 where
  pub mobile_open : Bool
  pub sidebar : Sidebar

abbrev pub open_shell : Option String → Shell
unfolding Sidebar.load
open_shell stored = record { mobile_open = false; sidebar = Sidebar.load stored }

-- What is pressed: the menu button, what closes the menu, the folding, and a link of the sidebar or
-- one of its recent folders.
pub data Press : Type 0 where
  open_menu overlay close_menu toggle : Press
  link recent_folder : String → Press

unfoldable pub press : Shell → Press → Shell
press s open_menu = record s { mobile_open = true }
press s overlay = record s { mobile_open = false }
press s close_menu = record s { mobile_open = false }
press s toggle = record s { sidebar = Sidebar.toggle_collapsed s.sidebar }
press s (link to) = record s { mobile_open = false }
press s (recent_folder id) = record s { mobile_open = false }

unfoldable pub presses : Shell → List Press → Shell
presses s [] = s
presses s (p ∷ ps) = presses (press s p) ps

-- `!isCollapsed || mobileOpen`: the switcher, the names, and the button for signing out.
abbrev pub wide : Shell → Bool
wide s = not s.sidebar.is_collapsed || s.mobile_open

-- `user?.name?.charAt(0) || 'U'`.
abbrev first_letter : String → String
first_letter Text.[] = "U"
first_letter (Text.◌∷◌ c s) = Text.◌∷◌ c ""

unfoldable pub avatar : Option User → String
avatar none = "U"
avatar (some u) = first_letter u.name
