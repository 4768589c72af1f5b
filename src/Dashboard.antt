-- ===== src/Dashboard.antt =====
-- The overview after signing in: web/src/pages/app/DashboardPage.tsx and dashboard/. What the
-- queries give is an argument of each view.
pub mod Stale
mod Tests
use go_drive.Base.{
  ℕ, zero, suc, String, Bool, true, false, Option, none, some, List, [], ◌∷◌, Dict, get, truthy,
  if◌then◌else◌, map, length, ltb,
}
use go_drive.Activity.{AuditLog}
use go_drive.Format.{Shown, format_bytes}
use go_drive.Layout.Recent.{Usage, bar_width}

abbrev pub recent_folders_limit : ℕ
recent_folders_limit = 4

abbrev pub recent_files_limit : ℕ
recent_files_limit = 5

abbrev pub recent_activity_limit : ℕ
recent_activity_limit = 5

-- What a section shows of its query.
pub data Section {ℓ} (A : Type ℓ) : Type ℓ where
  loading : ℕ → Section A
  failed empty : Section A
  rows : List A → Section A

module _ {ℓ} {A : Type ℓ} where
  -- `query.data?.… ?? []`.
  abbrev pub or_nil : Option (List A) → List A
  or_nil none = []
  or_nil (some xs) = xs

  abbrev pub rows_of : List A → Section A
  rows_of [] = empty
  rows_of (x ∷ xs) = rows (x ∷ xs)

  -- `slice(0, n)`.
  abbrev pub take : ℕ → List A → List A
  take zero xs = []
  take (suc n) [] = []
  take (suc n) (x ∷ xs) = x ∷ take n xs

  -- Pending, failed, empty, or the rows; `n` grey lines while it is pending.
  unfoldable pub section_of : ℕ → Bool → Bool → List A → Section A
  section_of n true is_error xs = loading n
  section_of n false true xs = failed
  section_of n false false xs = rows_of xs

-- DashboardRecentActivity.tsx.
unfoldable pub activity_section : Bool → Bool → Option (List AuditLog) → Section AuditLog
activity_section is_pending is_error answer =
    section_of 3 is_pending is_error (take recent_activity_limit (or_nil answer))

-- DashboardRecentFiles.tsx: the name and the size of a file, and where its row leads.
pub record File : Type 0 where
  pub id : String
  pub name : String
  pub size : ℕ

pub record FileRow : Type 0 where
  pub title : String
  pub size : Shown
  pub preview_of : String

abbrev file_row : File → FileRow
file_row f = record { title = f.name; size = format_bytes f.size; preview_of = f.id }

unfoldable pub files_section : Bool → Bool → Option (List File) → Section FileRow
files_section is_pending is_error answer =
    section_of 3 is_pending is_error (map file_row (or_nil answer))

-- DashboardRecentFolders.tsx.
pub record Folder : Type 0 where
  pub id : String
  pub name : String
  pub color : String

abbrev color_classes : Dict String
color_classes =
    ("yellow", "bg-yellow-500/10 text-yellow-600 dark:text-yellow-400")
    ∷ ("blue", "bg-sky-500/10 text-sky-600 dark:text-sky-400")
    ∷ ("green", "bg-emerald-500/10 text-emerald-600 dark:text-emerald-400")
    ∷ ("red", "bg-rose-500/10 text-rose-600 dark:text-rose-400")
    ∷ ("purple", "bg-violet-500/10 text-violet-600 dark:text-violet-400")
    ∷ []

abbrev or_blue : Option String → String
or_blue none = "bg-sky-500/10 text-sky-600 dark:text-sky-400"
or_blue (some c) = c

pub record Tile : Type 0 where
  pub name : String
  pub color_class : String
  pub folder : String

abbrev tile_of : Folder → Tile
tile_of f = record {
  name = f.name;
  color_class = or_blue (get color_classes f.color);
  folder = f.id;
}

unfoldable pub folders_section : Bool → Bool → Option (List Folder) → Section Tile
folders_section is_pending is_error answer =
    section_of 4 is_pending is_error (map tile_of (or_nil answer))

-- DashboardStorage.tsx: the card of StorageUsageCard.tsx, if there is one, stands before that of the
-- breakdown.
pub record UsageCard : Type 0 where
  pub used : Shown
  pub limit : Shown
  pub width : ℕ
  pub file_count : ℕ
  pub folder_count : ℕ

unfoldable pub usage_card : Usage → UsageCard
usage_card u = record {
  used = format_bytes u.used;
  limit = format_bytes u.limit;
  width = bar_width u;
  file_count = u.file_count;
  folder_count = u.folder_count;
}

unfoldable pub storage_cards : Bool → Bool → Option Usage → Option UsageCard
storage_cards true is_error answer = none
storage_cards false true answer = none
storage_cards false false none = none
storage_cards false false (some u) = some (usage_card u)

-- DashboardWelcome.tsx: `handleUpload`; the files go to the root of the organization, and the field is
-- emptied in either case.
pub record Batch : Type 0 where
  pub names : List String
  pub org_slug : String
  pub folder_id : Option String

abbrev given_slug : Option String → Option String
given_slug none = none
given_slug (some s) = if truthy s then some s else none

abbrev batch_for : List String → Option String → Option Batch
batch_for names none = none
batch_for names (some slug) = some (record { names = names; org_slug = slug; folder_id = none })

unfoldable pub handle_upload : List String → Option String → Option Batch
handle_upload names org_slug =
    if ltb 0 (length names) then batch_for names (given_slug org_slug) else none
