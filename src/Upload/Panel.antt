-- ===== src/Upload/Panel.antt =====
-- The panel of the uploads: web/src/components/app/UploadPanel.tsx, over the rows of the upload store.
use go_drive.Base.{
  ℕ, String, Bool, Option, none, some, List, [], ◌∷◌, map, length, truthy, if◌then◌else◌,
}
use go_drive.Upload.{UploadEntry, UploadStatus, uploading, done, failed}

pub data Mark : Type 0 where
  spinner check cross : Mark

pub record Line : Type 0 where
  pub name : String
  pub mark : Mark
  pub progress : Option ℕ
  pub message : Option String

abbrev mark_of : UploadStatus → Mark
mark_of uploading = spinner
mark_of done = check
mark_of failed = cross

-- The percentage and the bar are there while the file is uploading.
abbrev progress_of : UploadStatus → ℕ → Option ℕ
progress_of uploading percent = some percent
progress_of _ percent = none

abbrev nonempty : Option String → Option String
nonempty none = none
nonempty (some m) = if truthy m then some m else none

-- `entry.status === 'error' && entry.error`.
abbrev message_of : UploadStatus → Option String → Option String
message_of failed m = nonempty m
message_of _ m = none

unfoldable pub line_of : UploadEntry → Line
line_of e = record {
  name = e.name;
  mark = mark_of e.status;
  progress = progress_of e.status e.percent;
  message = message_of e.status e.message;
}

-- The panel: nothing without rows, else their number and, unless it is collapsed, their lines.
pub data Panel : Type 0 where
  hidden : Panel
  collapsed : ℕ → Panel
  expanded : ℕ → List Line → Panel

unfoldable pub panel : Bool → List UploadEntry → Panel
panel is_open [] = hidden
panel is_open (e ∷ es) =
    if is_open
    then expanded (length (e ∷ es)) (map line_of (e ∷ es))
    else collapsed (length (e ∷ es))
