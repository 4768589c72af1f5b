-- ===== src/App/Entry.antt =====
-- What the pages for signing in and up show: web/src/pages/LoginPage.tsx and SignupPage.tsx.
use go_drive.Base.{
  String, Bool, true, false, not, ◌&&◌, Option, none, some, truthy, if◌then◌else◌, ◌≡◌, refl,
  Bool-cases, inl, inr,
}
use go_drive.Auth.{User}
use go_drive.App.Routes.{Location, root, orgs}

-- `RegisterSettings`.
pub record RegisterSettings : Type 0 where
  pub register_disabled : Bool

-- The other cells of both pages.
pub record Cells : Type 0 where
  pub show_password : Bool
  pub show_confirm_password : Bool
  pub message : String
  pub loading : Bool

-- A field for a password: its text can be shown.
pub data FieldType : Type 0 where
  text password : FieldType

abbrev pub field_type : Bool → FieldType
field_type shown = if shown then text else password

abbrev pub shown_message : String → Option String
shown_message message = if truthy message then some message else none

pub record LoginForm : Type 0 where
  pub message : Option String
  pub password_type : FieldType
  pub submit_label : String
  pub can_submit : Bool
  pub sign_up_link : Bool

pub data LoginView : Type 0 where
  redirect : Location → LoginView
  form : LoginForm → LoginView

-- `registerSettings && !registerSettings.register_disabled`.
abbrev is_open : Option RegisterSettings → Bool
is_open none = false
is_open (some r) = not r.register_disabled

unfoldable pub login_view : Option User → Option RegisterSettings → Cells → LoginView
login_view (some user) settings s = redirect root
login_view none settings s = form (record {
  message = shown_message s.message;
  password_type = field_type s.show_password;
  submit_label = if s.loading then "auth.signingIn" else "auth.signIn";
  can_submit = not s.loading;
  sign_up_link = is_open settings;
})

pub record SignupFields : Type 0 where
  pub message : Option String
  pub password_type : FieldType
  pub confirm_type : FieldType
  pub submit_label : String
  pub can_submit : Bool

pub data SignupView : Type 0 where
  redirected : Location → SignupView
  blank disabled : SignupView
  fields : SignupFields → SignupView

-- `registerSettings?.register_disabled === true`.
abbrev is_disabled : Option RegisterSettings → Bool
is_disabled none = false
is_disabled (some r) = r.register_disabled

unfoldable pub signup_view : Option User → Bool → Option RegisterSettings → Cells → SignupView
signup_view (some user) settings_loading settings s = redirected orgs
signup_view none settings_loading settings s =
    if settings_loading
    then blank
    else if is_disabled settings
    then disabled
    else fields (record {
      message = shown_message s.message;
      password_type = field_type s.show_password;
      confirm_type = field_type s.show_confirm_password;
      submit_label = if s.loading then "auth.creatingAccount" else "auth.signUp";
      can_submit = not s.loading;
    })

unfoldable pub toggle_password : Cells → Cells
toggle_password s = record s { show_password = not s.show_password }

unfoldable pub toggle_confirm_password : Cells → Cells
toggle_confirm_password s = record s { show_confirm_password = not s.show_confirm_password }

abbrev pub has_link : LoginView → Bool
has_link (redirect there) = false
has_link (form f) = f.sign_up_link

abbrev pub has_fields : SignupView → Bool
has_fields (fields f) = true
has_fields v = false

abbrev is_some : Option RegisterSettings → Bool
is_some none = false
is_some (some r) = true

-- A visitor is offered the link for signing up exactly if the settings are there and the page that it
-- leads to has the form. Without the settings there is no link, though the page has the form.
pub link_lem :
    (settings : Option RegisterSettings) (s t : Cells)
    → (has_link (login_view none settings s)
        ≡ (is_some settings && has_fields (signup_view none false settings t)))
      × (has_fields (signup_view none false none t) ≡ true)
unfolding login_view signup_view
link_lem none s t = (refl, refl)
link_lem (some r) s t = elim (Bool-cases r.register_disabled) [
  | inl closed ↦ rw closed (refl, refl)
  | inr allowed ↦ rw allowed (refl, refl)
]
