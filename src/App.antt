-- ===== src/App.antt =====
-- The session of the single-page application: AuthLoader and the routes of web/src/App.tsx, and the
-- guards of web/src/components.
pub mod Routes
pub mod Session
pub mod SigningIn
pub mod Guards
pub mod Forms
pub mod Entry
pub mod NewOrg
mod Tests
use go_drive.Base.{
  String, Bool, true, false, not, ◌&&◌, Option, none, some, List, [], ◌∷◌, if◌then◌else◌,
}
use go_drive.Api.{Response, Outcome, resolved, rejected}
use go_drive.Auth.{
  User, Auth, AuthulaResponse, set_user, set_token, sign_in, sign_up, sign_out, signed_out,
}
use go_drive.Org.{
  Organization, OrgState, fresh, set_organizations, set_current_org, create_org, delete_org,
  call_api,
}

-- Both stores of a tab.
pub record Client : Type 0 where
  pub auth : Auth
  pub org : OrgState

-- A page that loads.
abbrev pub boot : Option String → Client
boot stored = record { auth = signed_out; org = fresh stored }

-- `MeData`; `data.organizations ?? []`.
pub record MeData : Type 0 where
  pub user : Option User
  pub organizations : Option (List Organization)

abbrev or_nil {ℓ} : {A : Type ℓ} → Option (List A) → List A
or_nil none = []
or_nil (some xs) = xs

-- The query function of `AuthLoader`: any failure signs the client out.
unfoldable pub loaded : Client → Outcome (Option MeData) → Client
loaded c (resolved (some me)) = record {
  auth = set_user me.user c.auth;
  org = set_organizations (or_nil me.organizations) c.org;
}
loaded c _ = record {
  auth = set_token none (set_user none c.auth);
  org = set_organizations [] c.org;
}

unfoldable pub load_me : Option (Response MeData) → Client → Client
unfolding loaded
load_me answer c = loaded c (call_api answer)

-- The stores after `signIn` or `signUp` has set the session and the refetch that it awaits has its
-- answer.
abbrev pub refetched : Client → Option (Response MeData) → Auth → Client
refetched c me session = load_me me (record c { auth = session })

unfoldable pub sign_in_client :
    Option (Response AuthulaResponse)
    → Option (Response MeData)
    → Client
    → Client × Outcome (Unit {0})
sign_in_client answer me c = sign_in (refetched c me) answer c

unfoldable pub sign_up_client :
    Option (Response AuthulaResponse)
    → Option (Response MeData)
    → Client
    → Client × Outcome (Unit {0})
sign_up_client answer me c = sign_up (refetched c me) answer c

-- What happens in a tab, each with what the server answers.
pub data Event : Type 0 where
  load : Option (Response MeData) → Event
  signing_in signing_up : Option (Response AuthulaResponse) → Option (Response MeData) → Event
  signing_out : Event
  switching : Option Organization → Event
  creating : Option (Response Organization) → Event
  deleting : String → Option (Response (Unit {0})) → Event

unfoldable pub step : Client → Event → Client
step c (load answer) = load_me answer c
step c (signing_in answer me) = (sign_in_client answer me c).0
step c (signing_up answer me) = (sign_up_client answer me c).0
step c signing_out = record c { auth = sign_out c.auth }
step c (switching org) = record c { org = set_current_org org c.org }
step c (creating answer) = record c { org = (create_org answer c.org).0 }
step c (deleting slug answer) = record c { org = (delete_org slug answer c.org).0 }

unfoldable pub run : Client → List Event → Client
run c [] = c
run c (e ∷ es) = run (step c e) es
