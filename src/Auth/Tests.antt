-- ===== src/Auth/Tests.antt =====
-- Concrete sessions.
use go_drive.Base.{none, some, ◌≡◌, refl, true}
use go_drive.Api.{Response, object}
use go_drive.Auth.{
  User, Auth, AuthulaResponse, sign_in, signed_out, auth_fetch, session_of, json_of,
}

abbrev ada : User
ada = record { id = "u1"; name = "Ada"; email = "ada@example.com"; is_admin = some true }

abbrev accepted : Response AuthulaResponse
accepted = record {
  status = 200;
  body = object none (some (record { user = ada; session = some "t0k" }));
}

abbrev ada_session : Auth
ada_session = record { user = some ada; token = some "t0k"; is_admin = true }

-- The state of the tab being the session, and a refetch that changes nothing.
sign_in-accepted : (sign_in (λ s. s) (some accepted) signed_out).0 ≡ ada_session
unfolding sign_in auth_fetch session_of json_of
sign_in-accepted = refl
