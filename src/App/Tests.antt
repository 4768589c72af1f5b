-- ===== src/App/Tests.antt =====
-- Concrete sessions.
use go_drive.Base.{none, some, [], ◌∷◌, ◌≡◌, refl, true, false, ◌≢◌, ◌≤◌}
use go_drive.Api.{resolved, object, Failure, Response}
use go_drive.Auth.{
  User, AuthulaResponse, sign_in, sign_up, set_user, set_token, auth_fetch, session_of, json_of,
}
use go_drive.App.Forms.{SignupForm, HasEnded, submit_signup, utf16_length, submit_signup-HasEnded}
use go_drive.Org.{Organization, owner}
use go_drive.Org.Laws.{IsSynced}
use go_drive.App.{
  Client, MeData, Event, load, signing_in, signing_out, boot, run, sign_in_client, sign_up_client,
  load_me, loaded, List, String, Option, fresh,
}
use go_drive.App.NewOrg.{
  NewOrg, IsAnswered, handle_name_change, handle_submit, handle_submit-IsAnswered,
}
use go_drive.App.Routes.{organizations, admin, visit, root, orgs}
use go_drive.App.SigningIn.{SignedIn, sign_in_client-SignedIn}
use go_drive.App.Session.{boot-IsSynced, current_org_survives}
use go_drive.App.Guards.{visit-landing}

abbrev ada : User
ada = record { id = "u1"; name = "Ada"; email = "ada@example.com"; is_admin = some true }

abbrev acme : Organization
acme = record { id = "o1"; name = "Acme"; slug = "acme"; role = owner }

abbrev me : MeData
me = record { user = some ada; organizations = some (acme ∷ []) }

abbrev events : List Event
events = load (some (record { status = 200; body = object none (some me) })) ∷ signing_out ∷ []

abbrev admin_client : Client
admin_client = record {
  auth = record { user = some ada; token = some "t0k"; is_admin = true };
  org = record { organizations = acme ∷ []; current_org = some acme; stored = some "acme" };
}

boot-IsSynced_example : IsSynced (run (boot none) events).org
boot-IsSynced_example = boot-IsSynced none events

current_org_survives_example :
    (run admin_client (signing_out ∷ signing_in none none ∷ load none ∷ [])).org.current_org
    ≡ some acme
current_org_survives_example = current_org_survives admin_client acme none none none refl

visit-landing_example : visit 4 admin_client root ≡ some (admin organizations)
visit-landing_example = visit-landing admin_client root

abbrev accepted : Response AuthulaResponse
accepted = record {
  status = 200;
  body = object none (some (record { user = ada; session = some "t0k" }));
}

abbrev refused : Response AuthulaResponse
refused = record { status = 401; body = object (some "invalid credentials") none }

abbrev browser : Failure → String
browser e = "NetworkError"

told : (e : Failure) → ◌≢◌ {A = String} (browser e) ""
told e = λ p. cc

abbrev form : SignupForm
form = record {
  name = "Ada";
  email = "ada@example.com";
  password = "correct horse";
  confirm_password = "correct horse";
}

abbrev loaded_me : Option (Response MeData)
loaded_me = some (record { status = 200; body = object none (some me) })

signup_destination :
    (submit_signup browser form false (some accepted) loaded_me (boot none)).destination ≡ some orgs
unfolding submit_signup sign_up_client sign_up auth_fetch session_of json_of
signup_destination = refl

submit_signup-HasEnded_example :
    HasEnded
      (auth_fetch (some accepted))
      loaded_me
      (boot none)
      orgs
      (submit_signup browser form false (some accepted) loaded_me (boot none))
    × ((submit_signup browser form false (some accepted) loaded_me (boot none)).destination
          ≡ some orgs
        → (form.password ≡ form.confirm_password) × (8 ≤ utf16_length form.password))
submit_signup-HasEnded_example =
    submit_signup-HasEnded browser told form false (some accepted) loaded_me (boot none) refl

sign_in_client-SignedIn_example :
    SignedIn
      (some accepted)
      loaded_me
      (boot none)
      (sign_in_client (some accepted) loaded_me (boot none))
sign_in_client-SignedIn_example = sign_in_client-SignedIn (some accepted) loaded_me (boot none)

-- A signing in whose refetch fails resolves, and nobody is signed in.
lost_session :
    ((sign_in_client (some accepted) none (boot none)).0.auth.user ≡ none)
    × ((sign_in_client (some accepted) none (boot none)).1 ≡ resolved tt)
unfolding sign_in_client sign_in auth_fetch session_of json_of load_me loaded set_user set_token
lost_session = (refl, refl)

abbrev new_org : NewOrg
new_org =
    handle_name_change (λ s. s) "acme"
      (record { is_open = true; name = ""; slug = ""; message = ""; loading = false })

abbrev org_answer : Option (Response Organization)
org_answer = some (record { status = 201; body = object none (some acme) })

handle_submit-IsAnswered_example :
    IsAnswered new_org (fresh none) (handle_submit browser org_answer new_org (fresh none))
handle_submit-IsAnswered_example =
    handle_submit-IsAnswered browser told org_answer new_org (fresh none)
