-- ===== src/Admin/Frame.antt =====
-- The frame around the pages below /admin: web/src/components/admin/AdminLayout.tsx, Sidebar.tsx and
-- SidebarNav.tsx. Which link the router marks as active is a parameter.
use go_drive.Base.{
  String, Bool, true, false, not, ◌||◌, Option, none, some, List, [], ◌∷◌, map, filter, ◌==◌, ◌≡◌,
  refl, ap, ◌∙◌, if◌then◌else◌,
}
use go_drive.Auth.{Auth, User}
use go_drive.Layout.{Entry, avatar}
use go_drive.Layout.Active.{filter-same}
use go_drive.Preferences.Sidebar as Sidebar
use go_drive.Preferences.Sidebar.{Sidebar}

abbrev item : String → String → Entry
item to label = record { label = label; to = to }

-- `adminNavItems`.
unfoldable pub admin_nav_items : List Entry
admin_nav_items =
    item "/admin/organizations" "Organizations"
    ∷ item "/admin/users" "Users"
    ∷ item "/admin/system" "System"
    ∷ item "/admin/settings" "Settings"
    ∷ []

-- SidebarNav shows no link to anybody else than an administrator.
unfoldable pub sidebar_nav : Bool → List Entry
sidebar_nav is_admin = if is_admin then admin_nav_items else []

unfoldable pub active_items : (String → String → Bool) → Bool → String → List String
active_items is_active is_admin here =
    map (λ e. e.label) (filter (λ e. is_active e.to here) (sidebar_nav is_admin))

pub record Frame : Type 0 where
  pub mobile_open : Bool
  pub sidebar : Sidebar

pub data Press : Type 0 where
  open_menu overlay close_menu toggle : Press
  link : String → Press

unfoldable pub press : Frame → Press → Frame
press s open_menu = record s { mobile_open = true }
press s overlay = record s { mobile_open = false }
press s close_menu = record s { mobile_open = false }
press s toggle = record s { sidebar = Sidebar.toggle_collapsed s.sidebar }
press s (link to) = record s { mobile_open = false }

-- The title, and what stands at the bottom: the letter of the user, and, if there is room, the name,
-- the address and the button for signing out.
pub record Shown : Type 0 where
  pub title : String
  pub letter : String
  pub name : Option String
  pub email : Option String
  pub sign_out : Bool

abbrev pub wide : Frame → Bool
wide s = not s.sidebar.is_collapsed || s.mobile_open

abbrev name_of : Option User → Option String
name_of none = none
name_of (some u) = some u.name

abbrev email_of : Option User → Option String
email_of none = none
email_of (some u) = some u.email

unfoldable pub shown : Auth → Frame → Shown
shown auth s = record {
  title = if wide s then "Admin" else "A";
  letter = avatar auth.user;
  name = if wide s then name_of auth.user else none;
  email = if wide s then email_of auth.user else none;
  sign_out = wide s;
}

pub data AdminPlace : Type 0 where
  organizations users system settings : AdminPlace

abbrev pub path_of : AdminPlace → String
path_of organizations = "/admin/organizations"
path_of users = "/admin/users"
path_of system = "/admin/system"
path_of settings = "/admin/settings"

abbrev label_of : AdminPlace → String
label_of organizations = "Organizations"
label_of users = "Users"
label_of system = "System"
label_of settings = "Settings"

exact : (p : AdminPlace) → active_items (λ to here. to == here) true (path_of p) ≡ label_of p ∷ []
unfolding active_items sidebar_nav admin_nav_items
exact organizations = refl
exact users = refl
exact system = refl
exact settings = refl

-- If a link is active exactly where it leads to, an administrator has one active link on each page.
pub active_items_lem :
    (is_active : String → String → Bool)
    → ((to here : String) → is_active to here ≡ (to == here))
    → (p : AdminPlace) → active_items is_active true (path_of p) ≡ label_of p ∷ []
unfolding active_items
active_items_lem is_active h p =
    ap (map (λ e. e.label)) (
      filter-same (λ e. is_active e.to (path_of p)) (λ e. e.to == path_of p) (sidebar_nav true)
        (λ e. h e.to (path_of p)))
    ∙ exact p
