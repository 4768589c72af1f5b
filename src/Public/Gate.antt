-- ===== src/Public/Gate.antt =====
-- What the server asks of a visitor, and what the pages behind a link send it: `linkPassword` of
-- server/internal/handler/share.go and `openTrackedLink` of trackedlink.go. The verification of a
-- password is an argument; a time is a number.
use go_drive.Base.{
  ℕ, ltb, leb, String, Bool, true, false, not, ◌&&◌, Option, none, some, [], Dict, put?, get,
  truthy, if◌then◌else◌, ◌≡◌, refl, get-put?, override, Bool-cases, inl, inr, ◌==◌, eq_iff, ◌∙◌,
  eq_refl, sym, ◌⊎◌,
}
use go_drive.Api.{Outcome, rejected, error}
use go_drive.Public.Shared as Shared
use go_drive.Public.Shared.{SharedPage, given, given?, message_of}
use go_drive.Public.Tracked as Tracked
use go_drive.Public.Tracked.{
  TrackedPage, View, loading, gate, failed, not_found, content, info_params,
}
use go_drive.Public.UploadLink.{UploadPage, upload_of}

-- `c.Query(key)`: the empty text when the parameter is absent.
abbrev pub text_of : Option String → String
text_of none = ""
text_of (some s) = s

unfoldable pub query : Dict String → String → String
query params key = text_of (get params key)

-- `linkPassword`, for the text of the header X-Link-Password, empty if absent.
unfoldable pub link_password : String → Dict String → String
link_password header params = if truthy header then header else query params "password"

-- The columns of a tracked link that are checked.
pub record TrackedLink : Type 0 where
  pub is_active : Bool
  pub expires_at : Option ℕ
  pub valid_from : Option ℕ
  pub valid_until : Option ℕ
  pub max_views : Option ℕ
  pub view_count : ℕ
  pub view_only : Bool
  pub has_password : Bool
  pub require_email : Bool

-- What the token leads to: nothing that could be read, for a reason that the server writes; no
-- tracked link; or a link.
pub data Lookup : Type 0 where
  unreadable : String → Lookup
  missing : Lookup
  found : TrackedLink → Lookup

-- Why a link cannot be opened at a time, whoever asks.
pub data Reason : Type 0 where
  inactive expired not_yet no_longer view_limit : Reason

unfoldable pub reason_text : Reason → String
reason_text inactive = "link is inactive"
reason_text expired = "link has expired"
reason_text not_yet = "link is not yet active"
reason_text no_longer = "link is no longer active"
reason_text view_limit = "view limit reached"

-- `t != nil && now.After(*t)`, `t != nil && now.Before(*t)`, and the limit of the views.
abbrev is_after : ℕ → Option ℕ → Bool
is_after now none = false
is_after now (some t) = ltb t now

abbrev is_before : ℕ → Option ℕ → Bool
is_before now none = false
is_before now (some t) = ltb now t

abbrev is_reached : ℕ → Option ℕ → Bool
is_reached count none = false
is_reached count (some most) = leb most count

unfoldable pub closed : ℕ → TrackedLink → Option Reason
closed now link =
    if not link.is_active
    then some inactive
    else if is_after now link.expires_at
    then some expired
    else if is_before now link.valid_from
    then some not_yet
    else if is_after now link.valid_until
    then some no_longer
    else if is_reached link.view_count link.max_views
    then some view_limit
    else none

module _ (verify : String → Bool) where
  -- The checks that depend on the request: a download, the password, the e-mail address.
  unfoldable pub unmet : Bool → TrackedLink → Dict String → Option String
  unmet when_download link params =
      if link.view_only && when_download
      then some "downloads are not enabled for this link"
      else if link.has_password && not (verify (link_password "" params))
      then some "invalid password"
      else if link.require_email && query params "email" == ""
      then some "email is required for this link"
      else none

  abbrev refusal_of : Option Reason → Option String → Option String
  refusal_of (some reason) unmet_now = some (reason_text reason)
  refusal_of none unmet_now = unmet_now

  -- `openTrackedLink`: the message of its refusal, if there is one.
  unfoldable pub refusal : ℕ → Bool → Lookup → Dict String → Option String
  refusal now when_download (unreadable message) params = some message
  refusal now when_download missing params = some "link not found"
  refusal now when_download (found link) params =
      refusal_of (closed now link) (unmet when_download link params)

-- What is set last under a key that was free is read as it was given.
query-put? :
    (o : Dict String) (k value : String) → get o k ≡ none → query (put? o k (given value)) k ≡ value
unfolding query
query-put? o k value free =
    rw (get-put? o k k (given value), eq_refl k, free) (read (Bool-cases (value == "")))
  where
    read :
        (value == "" ≡ true) ⊎ (value == "" ≡ false)
        → text_of (override (given value) true none) ≡ value
    read (inl e) = rw e (sym ((eq_iff value "").0 e))
    read (inr n) = rw n refl

-- What is set under another key does not matter.
get-other :
    (o : Dict String) (k j : String) (value : Option String)
    → (k == j) ≡ false
    → get (put? o k value) j ≡ get o j
get-other o k j none h = get-put? o k j none
get-other o k j (some v) h = rw (get-put? o k j (some v), h) refl

password_read : (t : TrackedPage) → link_password "" (info_params t) ≡ t.password
unfolding link_password info_params get
password_read t = query-put? _ "password" t.password (get-other [] "email" "password" _ refl)

-- The server reads the password that is in the page's field, whichever of the three pages sends it
-- and whatever else is sent; also when the field is empty. For uploads no part of the body has it.
pub link_password_lem :
    (f : Option String) (s : SharedPage) (t : TrackedPage) {F : Type 0} (token : String) (x : F)
    (u : UploadPage F)
    → (link_password "" (Shared.download_params f s) ≡ s.password)
      × (link_password "" (info_params t) ≡ t.password)
      × (link_password "" (Tracked.download_params f t) ≡ t.password)
      × (link_password "" (upload_of token x u).params ≡ u.password)
      × (get (upload_of token x u).form "password" ≡ none)
unfolding link_password Shared.download_params info_params Tracked.download_params upload_of get
link_password_lem f s t token x u = (
  query-put? _ "password" s.password (get-other [] "fileId" "password" _ refl),
  password_read t,
  query-put? _ "password" t.password (
      get-other (put? [] "fileId" (given? f)) "email" "password" _ refl
      ∙ get-other [] "fileId" "password" _ refl),
  query-put? [] "password" u.password refl,
  refl,
)

module _ {ℓ} {D : Type ℓ} (verify : String → Bool) where
  abbrev answer_of : Option String → Outcome (Option D) → Outcome (Option D)
  answer_of none rest = rest
  answer_of (some m) rest = rejected (error m)

  -- The answer of the server to the page's query; `rest` is that of the handler once the link is
  -- open, which may fail too.
  unfoldable pub answer : ℕ → Lookup → Outcome (Option D) → TrackedPage → Outcome (Option D)
  answer now lookup rest t = answer_of (refusal verify now false lookup (info_params t)) rest

  -- What a visitor with the texts of the page gets to see.
  abbrev pub opened : TrackedLink → TrackedPage → View D → View D
  opened link t rest =
      if link.has_password && not (verify t.password)
      then gate "invalid password"
      else if link.require_email && t.email == ""
      then gate "email is required for this link"
      else rest

  abbrev pub expected : Option Reason → TrackedLink → TrackedPage → View D → View D
  expected (some reason) link t rest = failed (reason_text reason)
  expected none link t rest = opened link t rest
