-- ===== src/App/Guards.antt =====
-- Who sees which page of web/src/App.tsx.
use go_drive.Base.{Bool, true, false, not, ◌||◌, if◌then◌else◌, ◌≡◌, ◌↔◌, some, arith}
use go_drive.App.{Client, Bool, not}
use go_drive.App.Routes.{
  AdminPage, Location, shown, login, signup, shared, upload, tracked, orgs, org_settings, app_index,
  app, admin, status, organizations, render, visit, is_none, is_nil,
}

-- An admin page is shown exactly to a signed-in administrator.
pub admin_shown_iff :
    (c : Client) (p : AdminPage)
    → (render c (admin p) ≡ shown (admin p))
      ↔ ((is_none c.auth.user ≡ false) × (c.auth.is_admin ≡ true))
unfolding render
admin_shown_iff c p = ground arith

-- Pages for everybody.
abbrev is_public : Location → Bool
is_public shared = true
is_public upload = true
is_public tracked = true
is_public _ = false

-- Where a visitor who is not signed in ends.
abbrev landing_guest : Location → Location
landing_guest signup = signup
landing_guest _ = login

-- Where an administrator ends.
abbrev landing_admin : Location → Location
landing_admin app_index = app status
landing_admin (app p) = app p
landing_admin (admin p) = admin p
landing_admin _ = admin organizations

-- Where a member ends, with or without a current organization.
abbrev landing_member : Bool → Location → Location
landing_member chosen orgs = orgs
landing_member chosen signup = orgs
landing_member chosen org_settings = org_settings
landing_member true (app p) = app p
landing_member true _ = app status
landing_member false _ = orgs

abbrev has_org : Client → Bool
has_org c = not (is_nil c.org.organizations || is_none c.org.current_org)

abbrev landing : Client → Location → Location
landing c here =
    if is_public here
    then here
    else if is_none c.auth.user
    then landing_guest here
    else if c.auth.is_admin
    then landing_admin here
    else landing_member (has_org c) here

-- From every address, in every state of the stores, the browser comes to rest after at most three
-- redirects: at the address itself if it is public; otherwise a guest at the login or the signup
-- page, an administrator at the app or admin page asked for or else the admin start page, and a
-- member at the page asked for, or the start page, or the list of organizations if no organization
-- is current or the address was the signup page.
pub visit-landing : (c : Client) (here : Location) → visit 4 c here ≡ some (landing c here)
unfolding visit render
visit-landing c login = ground arith
visit-landing c _ = ground arith
