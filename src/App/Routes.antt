-- ===== src/App/Routes.antt =====
-- The route table of App.tsx with its guards, and the redirects that they make.
use go_drive.Base.{
  ℕ, zero, suc, Bool, true, false, not, ◌&&◌, ◌||◌, Option, none, some, List, [], ◌∷◌,
  if◌then◌else◌,
}
use go_drive.Auth.{Auth}
use go_drive.App.{Client}

-- The pages below /app and /admin.
pub data AppPage : Type 0 where
  status files preview stores members appearance notifications links activity api_docs : AppPage

pub data AdminPage : Type 0 where
  organizations users system settings : AdminPage

-- What the address matches in the route table; `unknown` is the route `*`.
pub data Location : Type 0 where
  login signup shared upload tracked orgs org_settings root app_index admin_index unknown : Location
  app : AppPage → Location
  admin : AdminPage → Location

-- `pathname.startsWith('/admin')` and `pathname.startsWith('/app')`.
abbrev under_admin : Location → Bool
under_admin admin_index = true
under_admin (admin p) = true
under_admin _ = false

abbrev under_app : Location → Bool
under_app app_index = true
under_app (app p) = true
under_app _ = false

-- A guard or a page either shows its content or navigates.
pub data View : Type 0 where
  shown : Location → View
  navigate : Location → View

abbrev pub is_none {ℓ} : {A : Type ℓ} → Option A → Bool
is_none none = true
is_none (some a) = false

abbrev pub is_nil {ℓ} : {A : Type ℓ} → List A → Bool
is_nil [] = true
is_nil (x ∷ xs) = false

unfoldable protected_route : Auth → Location → View → View
protected_route s here children =
    if is_none s.user
    then navigate login
    else if s.is_admin && not (under_admin here) && not (under_app here)
    then navigate admin_index
    else children

unfoldable org_guard : Client → View → View
org_guard c children =
    if c.auth.is_admin
    then children
    else if is_nil c.org.organizations || is_none c.org.current_org
    then navigate orgs
    else children

unfoldable admin_guard : Auth → View → View
admin_guard s children = if not s.is_admin then navigate root else children

-- LoginPage and SignupPage leave at once when somebody is signed in, for different pages.
unfoldable entry_page : Auth → Location → Location → View
entry_page s here there = if is_none s.user then shown here else navigate there

-- The element of each route.
unfoldable pub render : Client → Location → View
unfolding protected_route org_guard admin_guard entry_page
render c login = entry_page c.auth login root
render c signup = entry_page c.auth signup orgs
render c shared = shown shared
render c upload = shown upload
render c tracked = shown tracked
render c orgs = protected_route c.auth orgs (shown orgs)
render c org_settings = protected_route c.auth org_settings (shown org_settings)
render c root = protected_route c.auth root (org_guard c (navigate (app status)))
render c app_index = protected_route c.auth app_index (org_guard c (navigate (app status)))
render c (app p) = protected_route c.auth (app p) (org_guard c (shown (app p)))
render c admin_index =
    protected_route c.auth admin_index (admin_guard c.auth (navigate (admin organizations)))
render c (admin p) = protected_route c.auth (admin p) (admin_guard c.auth (shown (admin p)))
render c unknown = navigate root

-- The page that the browser comes to, following at most the given number of redirects.
unfoldable pub visit : ℕ → Client → Location → Option Location
visit zero c here = none
visit (suc n) c here = elim (render c here) [
  | shown page ↦ some page
  | navigate there ↦ visit n c there
]
