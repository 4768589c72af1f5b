-- ===== src/Preview.antt =====
-- The page of one file: web/src/pages/app/FilePreviewPage.tsx. The printing of a date is an argument,
-- as is the origin of the page's address.
pub mod Issued
mod Tests
use Prim.Native.String
use go_drive.Base.{
  ℕ, String, Bool, true, false, not, ◌&&◌, ◌||◌, Option, none, some, List, [], ◌∷◌, truthy,
  starts_with, ◌==◌, if◌then◌else◌, or_text, map, Dict, get,
}
use go_drive.Api.{Outcome, resolved, rejected}
use go_drive.Format.{Shown, format_public_bytes}

pub record LockerFile : Type 0 where
  pub id : String
  pub name : String
  pub mime_type : String
  pub size : ℕ
  pub storage_provider : String
  pub status : String
  pub checksum : String
  pub created_at : String
  pub updated_at : String

unfoldable pub is_previewable_image : String → Bool
is_previewable_image mime_type = starts_with mime_type "image/"

unfoldable pub is_previewable_pdf : String → Bool
is_previewable_pdf mime_type = mime_type == "application/pdf"

-- What a token was asked for: the preview of the page, or a new tab.
pub data Purpose : Type 0 where
  show open_tab : Purpose

-- The page; `opened` has the addresses of the tabs that it opened, the last first.
pub record PreviewPage : Type 0 where
  pub preview_url : String
  pub token_for : Option Purpose
  pub download_pending : Bool
  pub opened : List String

abbrev pub initial : PreviewPage
initial = record { preview_url = ""; token_for = none; download_pending = false; opened = [] }

-- `previewToken.isPending`, which disables both buttons that ask for a token.
abbrev pub token_pending : Option Purpose → Bool
token_pending none = false
token_pending (some p) = true

abbrev pub ask : Purpose → PreviewPage → PreviewPage
ask p s = if token_pending s.token_for then s else record s { token_for = some p }

unfoldable pub handle_preview : PreviewPage → PreviewPage
handle_preview s = ask show s

unfoldable pub handle_open_in_new_tab : PreviewPage → PreviewPage
handle_open_in_new_tab s = ask open_tab s

unfoldable pub handle_download : PreviewPage → PreviewPage
handle_download s = record s { download_pending = true }

pub data Action : Type 0 where
  press_preview press_open press_download : Action
  answered_token answered_download : Outcome String → Action

module _ (origin : String) where
  -- `onSuccess` of the two uses of a token, with the address of the answer.
  abbrev pub use_token : Option Purpose → String → PreviewPage → PreviewPage
  use_token none url s = s
  use_token (some show) url s = record s { preview_url = String.◌++◌ origin url }
  use_token (some open_tab) url s = record s { opened = String.◌++◌ origin url ∷ s.opened }

  unfoldable pub act : PreviewPage → Action → PreviewPage
  unfolding handle_preview handle_open_in_new_tab handle_download
  act s press_preview = handle_preview s
  act s press_open = handle_open_in_new_tab s
  act s press_download = handle_download s
  act s (answered_token (resolved url)) = use_token s.token_for url (record s { token_for = none })
  act s (answered_token (rejected e)) = record s { token_for = none }
  act s (answered_download (resolved url)) = record s {
    download_pending = false;
    opened = url ∷ s.opened;
  }
  act s (answered_download (rejected e)) = record s { download_pending = false }

  unfoldable pub acts : PreviewPage → List Action → PreviewPage
  acts s [] = s
  acts s (a ∷ as') = acts (act s a) as'

-- The queries that are made: the file's, and its tags' once the file is there.
abbrev given : Option String → Bool
given none = false
given (some s) = truthy s

unfoldable pub file_enabled : Option String → String → Bool
file_enabled org file_id = given org && truthy file_id

unfoldable pub tags_enabled : Option String → String → Option LockerFile → Bool
tags_enabled org file_id none = false
tags_enabled org file_id (some f) = given org && truthy file_id

-- `tagsQuery.data?.tags?.[fileId] ?? []`, by names.
abbrev or_none : Option (List String) → List String
or_none none = []
or_none (some l) = l

unfoldable pub tags_of : Option (Dict (List String)) → String → List String
tags_of none file_id = []
tags_of (some tags) file_id = or_none (get tags file_id)

-- The part of the card that shows the file.
pub data Viewer : Type 0 where
  no_viewer : Viewer
  hint : Bool → Viewer
  pdf image : String → Viewer

unfoldable pub viewer : String → PreviewPage → Viewer
viewer mime_type s =
    if is_previewable_image mime_type || is_previewable_pdf mime_type
    then (if truthy s.preview_url
        then (if is_previewable_pdf mime_type then pdf s.preview_url else image s.preview_url)
        else hint (not (token_pending s.token_for)))
    else no_viewer

-- The details below it; a text that is empty is shown as a dash.
pub record Details : Type 0 where
  pub name : String
  pub size : Shown
  pub mime_type : String
  pub created : String
  pub updated : String
  pub provider : String
  pub status : String
  pub checksum : Option String
  pub tags : List String

pub data View : Type 0 where
  loading not_found : View
  shown : Viewer → Details → View

module _ (date : String → String) where
  unfoldable pub details_of : LockerFile → List String → Details
  details_of f tags = record {
    name = f.name;
    size = format_public_bytes f.size;
    mime_type = or_text f.mime_type "—";
    created = date f.created_at;
    updated = date f.updated_at;
    provider = or_text f.storage_provider "—";
    status = or_text f.status "—";
    checksum = if truthy f.checksum then some f.checksum else none;
    tags = tags;
  }

  -- The page for the answer of the file's query, with whether it failed.
  unfoldable pub view : Bool → Bool → Option LockerFile → List String → PreviewPage → View
  view true is_error file tags s = loading
  view false true file tags s = not_found
  view false false none tags s = not_found
  view false false (some f) tags s = shown (viewer f.mime_type s) (details_of f tags)
