-- ===== src/App/Forms.antt =====
-- The forms of web/src/pages/LoginPage.tsx and web/src/pages/SignupPage.tsx: `handleSubmit`.
-- The texts of the browser's own errors are a parameter.
use Prim.Native.Char.{code}
use go_drive.Base.{
  ℕ, ◌+◌, ◌≤◌, ◌≡◌, ◌≢◌, ◌⊎◌, inl, inr, refl, String, Bool, false, not, Option, none, some, ltb,
  ◌==◌, if◌then◌else◌, Bool-cases, Option-cases, arith, eq_iff,
}
use go_drive.Api.{
  Body, malformed, null_body, object, Response, Failure, error, Outcome, resolved, rejected, is_ok,
  api_failure, ◌>>=◌,
}
use go_drive.Api.Results.{request_failed-ne, message-ne}
use go_drive.Auth.{AuthulaResponse, sign_in, sign_up, settle, auth_fetch, session_of, json_of}
use go_drive.App.{Client, MeData, refetched, sign_in_client, sign_up_client}
use go_drive.App.SigningIn.{HasSession, settled_cases}
use go_drive.App.Routes.{Location, root, orgs}

-- The fields that a submission changes, the stores, and where the page goes, if it does.
pub record Submitted : Type 0 where
  pub message : String
  pub loading : Bool
  pub client : Client
  pub destination : Option Location

-- `password.length`: a character outside of the basic plane counts twice.
abbrev pub utf16_length : String → ℕ
utf16_length String.[] = 0
utf16_length (String.◌∷◌ c s) = (if ltb (code c) 65536 then 1 else 2) + utf16_length s

pub record SignupForm : Type 0 where
  pub name : String
  pub email : String
  pub password : String
  pub confirm_password : String

module _ (browser : Failure → String) where
  -- `err.message`.
  abbrev pub message_of : Failure → String
  message_of (error m) = m
  message_of e = browser e

  -- What follows the promise of the auth store: `navigate` or `setError`, and `finally`.
  abbrev pub after : Location → Client × Outcome (Unit {0}) → Submitted
  after there (c, resolved _) = record {
    message = "";
    loading = false;
    client = c;
    destination = some there;
  }
  after there (c, rejected e) = record {
    message = message_of e;
    loading = false;
    client = c;
    destination = none;
  }

  unfoldable pub submit_login :
      Option (Response AuthulaResponse) → Option (Response MeData) → Client → Submitted
  submit_login answer me c = after root (sign_in_client answer me c)

  -- A form that is not sent; the message is a key of the translations.
  abbrev refuse : String → Bool → Client → Submitted
  refuse message loading c = record {
    message = message;
    loading = loading;
    client = c;
    destination = none;
  }

  -- `loading` is the field before the submission.
  unfoldable pub submit_signup :
      SignupForm
      → Bool
      → Option (Response AuthulaResponse)
      → Option (Response MeData)
      → Client
      → Submitted
  submit_signup form loading answer me c =
      if not (form.password == form.confirm_password)
      then refuse "auth.passwordsDoNotMatch" loading c
      else if ltb (utf16_length form.password) 8
      then refuse "auth.passwordMinLength" loading c
      else after orgs (sign_up_client answer me c)

-- A submission ends with what the refetch of the session gave and on the way, or with a message and
-- nothing changed.
abbrev pub HasEnded :
    Outcome (Option AuthulaResponse)
    → Option (Response MeData)
    → Client
    → Location
    → Submitted
    → Type 0
HasEnded fetched me c there r =
    (r.loading ≡ false)
    × (((r.destination ≡ some there) × (r.message ≡ "") × HasSession fetched me r.client)
        ⊎ ((r.destination ≡ none) × (r.message ≢ "") × (r.client ≡ c)))

mismatch-ne : ◌≢◌ {A = String} "auth.passwordsDoNotMatch" ""
mismatch-ne = λ e. cc

short-ne : ◌≢◌ {A = String} "auth.passwordMinLength" ""
short-ne = λ e. cc

module _ (browser : Failure → String) (told : (e : Failure) → browser e ≢ "") where
  abbrev IsTold {ℓ} : {A : Type ℓ} → Outcome A → Type 0
  IsTold (resolved a) = Unit
  IsTold (rejected e) = message_of browser e ≢ ""

  api_failure-told : (b : Body AuthulaResponse) → message_of browser (api_failure b) ≢ ""
  unfolding api_failure
  api_failure-told malformed = request_failed-ne
  api_failure-told null_body = told _
  api_failure-told (object m d) = message-ne m

  json_of-IsTold : (b : Body AuthulaResponse) → IsTold (json_of b)
  unfolding json_of
  json_of-IsTold malformed = told _
  json_of-IsTold null_body = tt
  json_of-IsTold (object m d) = tt

  auth_fetch-IsTold : (answer : Option (Response AuthulaResponse)) → IsTold (auth_fetch answer)
  unfolding auth_fetch
  auth_fetch-IsTold none = told _
  auth_fetch-IsTold (some res) = elim (Bool-cases (is_ok res.status)) [
    | inl good ↦ rw good (json_of-IsTold res.body)
    | inr bad ↦ rw bad (api_failure-told res.body)
  ]

  session_of-IsTold :
      (fetched : Outcome (Option AuthulaResponse))
      → IsTold fetched
      → IsTold (fetched >>= session_of)
  unfolding session_of
  session_of-IsTold (rejected e) h = h
  session_of-IsTold (resolved none) h = told _
  session_of-IsTold (resolved (some r)) h = elim (Option-cases r.session) [
    | inl absent ↦ rw absent (told _)
    | inr (t, present) ↦ rw present tt
  ]

  after-HasEnded :
      (there : Location) (answer : Option (Response AuthulaResponse))
      (me : Option (Response MeData)) (c : Client)
      → HasEnded
          (auth_fetch answer)
          me
          c
          there
          (after browser there (settle (refetched c me) c (auth_fetch answer >>= session_of)))
  after-HasEnded there answer me c =
      let t = session_of-IsTold (auth_fetch answer) (auth_fetch-IsTold answer) in
      settled_cases c me (auth_fetch answer)
        (λ r. HasEnded (auth_fetch answer) me c there (after browser there r))
        (λ c' k h. (refl, inl (refl, refl, h))) (λ e h. (refl, inr (refl, rw h at t, refl)))

  -- A submission of the login form ends in one of two ways, and the form is never left as loading:
  -- the answer had a session, the stores have what the refetch of it gave, nothing is complained
  -- about and the page goes to the root; or the page stays, a message that is not empty is shown,
  -- and the stores are as they were. If the refetch failed, nobody is signed in in the first case
  -- either. The texts of the browser's own errors are taken not to be empty.
  pub submit_login-HasEnded :
      (answer : Option (Response AuthulaResponse)) (me : Option (Response MeData)) (c : Client)
      → HasEnded (auth_fetch answer) me c root (submit_login browser answer me c)
  unfolding submit_login sign_in_client sign_in
  submit_login-HasEnded answer me c = after-HasEnded root answer me c

  -- A submission of the signup form, which is not loading then, ends in one of two ways, and the form
  -- is never left as loading: the answer had a session, the stores have the user and the token that
  -- the refetch of it gave (neither, if it failed), nothing is complained about and the page goes to
  -- the organizations; or the page stays, a message that is not empty is shown, and the stores are
  -- as they were. It goes there only if both passwords are the same and of length eight at least,
  -- counted as the language counts. The texts of the browser's own errors are taken not to be empty.
  pub submit_signup-HasEnded :
      (form : SignupForm) (loading : Bool) (answer : Option (Response AuthulaResponse))
      (me : Option (Response MeData)) (c : Client)
      → loading ≡ false
      → HasEnded (auth_fetch answer) me c orgs (submit_signup browser form loading answer me c)
        × ((submit_signup browser form loading answer me c).destination ≡ some orgs
            → (form.password ≡ form.confirm_password) × (8 ≤ utf16_length form.password))
  unfolding submit_signup sign_up_client sign_up
  submit_signup-HasEnded form loading answer me c idle =
      elim (Bool-cases (form.password == form.confirm_password)) [
        | inr other ↦ rw other ((idle, inr (refl, mismatch-ne, refl)), λ e. cc)
        | inl same ↦ elim (Bool-cases (ltb (utf16_length form.password) 8)) [
          | inl short ↦ rw (same, short) ((idle, inr (refl, short-ne, refl)), λ e. cc)
          | inr long ↦
              rw (same, long)
                (
                  after-HasEnded orgs answer me c,
                  λ e. ((eq_iff form.password form.confirm_password).0 same, ground (arith, long)),
                )
        ]
      ]
