-- ===== src/Public/Tests.antt =====
-- Concrete visitors; a file is its name.
use go_drive.Base.{
  includes, ◌+◌, ◌≤◌, String, Bool, true, false, none, some, List, [], ◌∷◌, ◌≡◌, refl, get, length,
  ◌==◌, ℕ, Option,
}
use go_drive.Api.{Outcome, Failure, error, resolved, rejected}
use go_drive.Public.Shared as Shared
use go_drive.Public.Shared.{initial-show_password, asks}
use go_drive.Public.Tracked as Tracked
use go_drive.Public.Tracked.{
  TrackedPage, View, view, gate, content, failed, needs_gate, info_params,
}
use go_drive.Public.Gate.{
  TrackedLink, found, closed, refusal, reason_text, answer, link_password, link_password_lem,
}
use go_drive.Public.UploadLink as Upload
use go_drive.Public.UploadLink.{UploadPage, upload_of, answers, sent_bound}

abbrev other : Failure → String
other e = "Failed to fetch"

abbrev tries : List Shared.Action
tries =
    Shared.answered (rejected (error "invalid password"))
    ∷ Shared.type_password "x"
    ∷ Shared.answered (rejected (error "link not found"))
    ∷ []

abbrev form : UploadPage String
form = record { file = none; password = "p"; pending = false }

abbrev typed : TrackedPage
typed = record { email = "a"; password = "p" }

link_password_lem_example :
    (link_password "" (Shared.download_params (some "f1") Shared.initial) ≡ "")
    × (link_password "" (info_params typed) ≡ "p")
    × (link_password "" (Tracked.download_params (some "f1") typed) ≡ "p")
    × (link_password "" (upload_of "t" "photo" form).params ≡ "p")
    × (get (upload_of "t" "photo" form).form "password" ≡ none)
link_password_lem_example = link_password_lem (some "f1") Shared.initial typed "t" "photo" form

-- A link for those who leave an address, which has expired once it is later than 9.
abbrev mailing : TrackedLink
mailing = record {
  is_active = true;
  expires_at = some 9;
  valid_from = none;
  valid_until = none;
  max_views = some 3;
  view_count = 2;
  view_only = true;
  has_password = false;
  require_email = true;
}

abbrev verify : String → Bool
verify p = p == "secret"

abbrev seven : Outcome (Option ℕ)
seven = resolved (some 7)

late : view other (some (answer verify 10 (found mailing) seven typed)) ≡ failed "link has expired"
unfolding view answer refusal closed reason_text needs_gate includes
late = refl

abbrev presses : List (Upload.Action String)
presses =
    Upload.choose (some "photo")
    ∷ Upload.upload
    ∷ Upload.upload
    ∷ Upload.answered (resolved tt)
    ∷ Upload.upload
    ∷ []

sent_bound_example : length (Upload.acts "t" (form, []) presses).1 ≤ answers presses + 1
sent_bound_example = sent_bound "t" form presses
