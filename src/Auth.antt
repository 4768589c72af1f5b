-- ===== src/Auth.antt =====
-- The signed-in user and the bearer token: web/src/store/auth.ts.
pub mod Laws
mod Tests
use go_drive.Base.{String, Bool, true, false, Option, none, some, if◌then◌else◌}
use go_drive.Api.{
  Body, malformed, null_body, object, Response, Failure, error, syntax_error, type_error,
  network_error, Outcome, resolved, rejected, ◌>>=◌, is_ok, request_failed, message_or_default,
  api_failure,
}

pub record User : Type 0 where
  pub id : String
  pub name : String
  pub email : String
  pub is_admin : Option Bool

pub record Auth : Type 0 where
  pub user : Option User
  pub token : Option String
  pub is_admin : Bool

-- `AuthulaResponse`: the user, and the token of `session`, which may be missing.
pub record AuthulaResponse : Type 0 where
  pub user : User
  pub session : Option String

abbrev pub signed_out : Auth
signed_out = record { user = none; token = none; is_admin = false }

-- `=== true`, which undefined is not.
abbrev pub is_true : Option Bool → Bool
is_true none = false
is_true (some b) = b

-- `user?.is_admin === true`.
abbrev pub admin_of : Option User → Bool
admin_of none = false
admin_of (some u) = is_true u.is_admin

unfoldable pub set_user : Option User → Auth → Auth
set_user user s = record s { user = user; is_admin = admin_of user }

unfoldable pub set_token : Option String → Auth → Auth
set_token token s = record s { token = token }

-- `res.json()` of a successful answer; a payload that is missing is undefined.
unfoldable pub json_of {ℓ} : {T : Type ℓ} → Body T → Outcome (Option T)
json_of malformed = rejected syntax_error
json_of null_body = resolved none
json_of (object m d) = resolved d

-- `authFetch`: its failures are those of `api`, with the text in `message`.
unfoldable pub auth_fetch {ℓ} : {T : Type ℓ} → Option (Response T) → Outcome (Option T)
unfolding api_failure json_of
auth_fetch none = rejected network_error
auth_fetch (some res) =
    if is_ok res.status then json_of res.body else rejected (api_failure res.body)

-- What `set({ user: data.user, token: data.session.token, … })` reads of the answer.
unfoldable pub session_of : Option AuthulaResponse → Outcome Auth
session_of none = rejected type_error
session_of (some r) = elim (r.session) [
  | none ↦ rejected type_error
  | some token ↦
      resolved
        (record { user = some r.user; token = some token; is_admin = is_true r.user.is_admin })
]

-- What follows the answer, and what the promise gives its caller: a session that was read is set
-- and then `['auth', 'me']` is invalidated, which is awaited. What the refetch makes of the tab with
-- the new session is an argument; it does not reject, since its query function catches all errors.
abbrev pub settle {ℓ} : {C : Type ℓ} → (Auth → C) → C → Outcome Auth → C × Outcome (Unit {0})
settle refetch c (resolved s) = (refetch s, resolved tt)
settle refetch c (rejected e) = (c, rejected e)

-- `signIn` and `signUp` differ in the address and the body of the request alone.
unfoldable pub sign_in {ℓ} :
    {C : Type ℓ} → (Auth → C) → Option (Response AuthulaResponse) → C → C × Outcome (Unit {0})
unfolding auth_fetch session_of
sign_in refetch answer c = settle refetch c (auth_fetch answer >>= session_of)

unfoldable pub sign_up {ℓ} :
    {C : Type ℓ} → (Auth → C) → Option (Response AuthulaResponse) → C → C × Outcome (Unit {0})
unfolding auth_fetch session_of
sign_up refetch answer c = settle refetch c (auth_fetch answer >>= session_of)

-- `signOut` goes on whatever the server answers; it leaves `isAdmin` as it is.
unfoldable pub sign_out : Auth → Auth
sign_out s = record s { user = none; token = none }
