-- ===== src/Public/Shared.antt =====
-- The page of a shared file or folder: web/src/pages/public/SharedLinkPage.tsx.
-- A `URLSearchParams` is the list of its pairs.
use Prim.Native.String
use go_drive.Base.{
  ℕ, String, Bool, true, false, ◌||◌, Option, none, some, List, [], ◌∷◌, Dict, put?, truthy,
  includes, if◌then◌else◌, ◌≡◌, refl, arith, any,
}
use go_drive.Api.{Outcome, resolved, rejected, Failure, error}

-- What a download link is answered with.
pub record DownloadResult : Type 0 where
  pub url : String
  pub filename : String
  pub mime_type : String
  pub size : ℕ

pub record SharedPage : Type 0 where
  pub password : String
  pub show_password : Bool
  pub download_error : String

abbrev pub initial : SharedPage
initial = record { password = ""; show_password = false; download_error = "" }

-- `if (value) params.set(key, value)`.
abbrev pub given : String → Option String
given value = if truthy value then some value else none

abbrev pub given? : Option String → Option String
given? none = none
given? (some value) = given value

-- The parameters of a download, of one file of a folder or of the file itself.
unfoldable pub download_params : Option String → SharedPage → Dict String
download_params file_id s = put? (put? [] "fileId" (given? file_id)) "password" (given s.password)

abbrev pub download_path : String → String
download_path token = String.◌++◌ (String.◌++◌ "/api/shared/" token) "/download"

-- `err.message`, over the messages of the errors that the program did not make.
abbrev pub message_of : (Failure → String) → Failure → String
message_of other (error m) = m
message_of other e = other e

pub data Action : Type 0 where
  type_password : String → Action
  answered : Outcome DownloadResult → Action

module _ (other : Failure → String) where
  -- `onSuccess`, which also opens the address that it was given, and `onError`.
  unfoldable pub settled : Outcome DownloadResult → SharedPage → SharedPage
  settled (resolved d) s = record s { download_error = "" }
  settled (rejected e) s = record s {
    download_error = message_of other e;
    show_password = if includes (message_of other e) "password" then true else s.show_password;
  }

  unfoldable pub act : SharedPage → Action → SharedPage
  unfolding settled
  act s (type_password value) = record s { password = value }
  act s (answered o) = settled o s

  unfoldable pub acts : SharedPage → List Action → SharedPage
  acts s [] = s
  acts s (a ∷ as') = acts (act s a) as'

  -- An answer that says something about a password.
  abbrev pub asks : Action → Bool
  asks (type_password value) = false
  asks (answered (resolved d)) = false
  asks (answered (rejected e)) = includes (message_of other e) "password"

  show_password-act :
      (s : SharedPage) (a : Action) → (act s a).show_password ≡ (asks a || s.show_password)
  unfolding act settled
  show_password-act s (type_password value) = refl
  show_password-act s (answered (resolved d)) = refl
  show_password-act s (answered (rejected e)) = ground arith

  show_password-acts :
      (s : SharedPage) (as' : List Action)
      → (acts s as').show_password ≡ (any asks as' || s.show_password)
  unfolding acts
  show_password-acts s [] = refl
  show_password-acts s (a ∷ as') =
      let e = show_password-acts (act s a) as' in
      let f = show_password-act s a in ground (arith, e, f)

  -- Whatever the visitor does, the password field is shown exactly when some download so far has
  -- failed with a message that speaks of a password.
  pub initial-show_password : (as' : List Action) → (acts initial as').show_password ≡ any asks as'
  initial-show_password as' = let e = show_password-acts initial as' in ground (arith, e)
