-- ===== src/App/SigningIn.antt =====
-- What signing in leaves of both stores once the refetch of the session, which it awaits, has its
-- answer: web/src/store/auth.ts with `AuthLoader` of web/src/App.tsx.
use go_drive.Base.{◌≡◌, refl, Option, none, some, String, Option-cases, inl, inr}
use go_drive.Api.{Response, Outcome, resolved, rejected, ◌>>=◌, Failure, type_error}
use go_drive.Auth.{
  Auth, AuthulaResponse, auth_fetch, session_of, settle, sign_in, sign_up, set_user, set_token,
  is_true,
}
use go_drive.Auth.Laws.{IsConsistent}
use go_drive.Org.{call_api}
use go_drive.App.{Client, MeData, loaded, load_me, refetched, sign_in_client, sign_up_client}

-- The session after the refetch: the user of its answer and the new token, or, if the answer is a
-- failure, nobody.
abbrev pub HasLoaded : Outcome (Option MeData) → String → Auth → Type 0
HasLoaded (resolved (some me)) token s = (s.user ≡ me.user) × (s.token ≡ some token)
HasLoaded _ token s = (s.user ≡ none) × (s.token ≡ none)

-- The answer had a session with a token, and what the refetch gave is there.
abbrev pub HasSession :
    Outcome (Option AuthulaResponse) → Option (Response MeData) → Client → Type 0
HasSession fetched me c =
    (r : AuthulaResponse) × (token : String) × (fetched ≡ resolved (some r))
    × (r.session ≡ some token)
    × HasLoaded (call_api me) token c.auth

abbrev pub SignedIn :
    Option (Response AuthulaResponse)
    → Option (Response MeData)
    → Client
    → Client × Outcome (Unit {0})
    → Type 0
SignedIn answer me c (c', resolved _) = IsConsistent c'.auth × HasSession (auth_fetch answer) me c'
SignedIn answer me c (c', rejected _) = c' ≡ c

loaded-HasLoaded :
    (c : Client) (o : Outcome (Option MeData)) (token : String)
    → c.auth.token ≡ some token
    → IsConsistent (loaded c o).auth × HasLoaded o token (loaded c o).auth
unfolding loaded set_user set_token
loaded-HasLoaded c (resolved (some me)) token h = (refl, (refl, h))
loaded-HasLoaded c (resolved none) token h = (refl, (refl, refl))
loaded-HasLoaded c (rejected e) token h = (refl, (refl, refl))

-- For every end of the request, the property that holds of the end of the signing in.
pub settled_cases {ℓ} :
    (c : Client) (me : Option (Response MeData)) (fetched : Outcome (Option AuthulaResponse))
    (Ends : Client × Outcome (Unit {0}) → Type ℓ)
    → ((c' : Client) → IsConsistent c'.auth → HasSession fetched me c' → Ends (c', resolved tt))
    → ((e : Failure) → fetched >>= session_of ≡ rejected e → Ends (c, rejected e))
    → Ends (settle (refetched c me) c (fetched >>= session_of))
unfolding session_of load_me
settled_cases c me (rejected e) Ends good bad = bad e refl
settled_cases c me (resolved none) Ends good bad = bad type_error refl
settled_cases c me (resolved (some r)) Ends good bad = elim (Option-cases r.session) [
  | inl absent ↦ rw absent (bad type_error (rw absent refl))
  | inr (t, present) ↦ rw present (
      let session : Auth = record {
        user = some r.user;
        token = some t;
        is_admin = is_true r.user.is_admin;
      } in
      let l = loaded-HasLoaded (record c { auth = session }) (call_api me) t refl in
      good (refetched c me session) l.0 (r, t, refl, present, l.1))
]

-- A signing in that resolves had an answer with a token, and leaves what the refetch gave: its user
-- with the new token, or, if the refetch failed, neither a user nor a token; the admin flag is the
-- user's. One that is rejected leaves both stores as they were.
pub sign_in_client-SignedIn :
    (answer : Option (Response AuthulaResponse)) (me : Option (Response MeData)) (c : Client)
    → SignedIn answer me c (sign_in_client answer me c)
unfolding sign_in_client sign_in
sign_in_client-SignedIn answer me c =
    settled_cases c me (auth_fetch answer) (SignedIn answer me c) (λ c' k h. (k, h)) (λ e h. refl)

sign_up_client-SignedIn :
    (answer : Option (Response AuthulaResponse)) (me : Option (Response MeData)) (c : Client)
    → SignedIn answer me c (sign_up_client answer me c)
unfolding sign_up_client sign_up
sign_up_client-SignedIn answer me c =
    settled_cases c me (auth_fetch answer) (SignedIn answer me c) (λ c' k h. (k, h)) (λ e h. refl)
