-- ===== src/Public/Tracked.antt =====
-- The page of a tracked link: web/src/pages/public/TrackedLinkPage.tsx.
-- A `URLSearchParams` is the list of its pairs. The query is asked anew for every text of the two
-- fields, since both are in its key, and is pending until that question has its answer.
use go_drive.Base.{
  String, Bool, ◌||◌, Option, none, some, [], Dict, put?, truthy, includes, if◌then◌else◌,
}
use go_drive.Api.{Outcome, resolved, rejected, Failure}
use go_drive.Public.Shared.{given, given?, message_of}

pub record TrackedPage : Type 0 where
  pub email : String
  pub password : String

abbrev pub initial : TrackedPage
initial = record { email = ""; password = "" }

-- The part of the key that the page's fields determine, after 'tracked' and the token.
abbrev pub query_key : TrackedPage → String × String
query_key s = (s.email, s.password)

-- The parameters of the query, and those of a download.
unfoldable pub info_params : TrackedPage → Dict String
info_params s = put? (put? [] "email" (given s.email)) "password" (given s.password)

unfoldable pub download_params : Option String → TrackedPage → Dict String
download_params file_id s =
    put? (put? (put? [] "fileId" (given? file_id)) "email" (given s.email)) "password"
      (given s.password)

-- What the page shows: `info.data` in the end, the fields for the two texts, or a message.
pub data View {ℓ} (D : Type ℓ) : Type ℓ where
  loading : View D
  gate : String → View D
  failed : String → View D
  not_found : View D
  content : D → View D

unfoldable pub needs_gate : String → Bool
needs_gate msg = includes msg "email" || includes msg "password"

-- `errorMsg || t('public.linkNotFound')`.
abbrev pub failed_as {ℓ} : {D : Type ℓ} → String → View D
failed_as msg = if truthy msg then failed msg else not_found

module _ {ℓ} {D : Type ℓ} (other : Failure → String) where
  -- The view for the answer to the question with the texts on show, if it is there; data may be
  -- missing from an answer that succeeds.
  unfoldable pub view : Option (Outcome (Option D)) → View D
  view none = loading
  view (some (rejected e)) =
      if needs_gate (message_of other e)
      then gate (message_of other e)
      else failed_as (message_of other e)
  view (some (resolved none)) = loading
  view (some (resolved (some d))) = content d
