-- ===== src/Layout/Recent.antt =====
-- The recent folders and the used storage in the sidebar: web/src/components/app/RecentFolders.tsx
-- and StorageUsageSidebar.tsx. A percentage is a whole number here.
use Prim.Native.Nat.{min}
use go_drive.Base.{ℕ, String, Bool, true, false, Option, none, some, List, [], ◌∷◌}
use go_drive.Format.{Shown, format_bytes}
use go_drive.Layout.Header.{Address}

pub record Folder : Type 0 where
  pub id : String
  pub name : String

-- Nothing is rendered without a folder.
abbrev some_folders : List Folder → Option (List Folder)
some_folders [] = none
some_folders (f ∷ fs) = some (f ∷ fs)

unfoldable pub recent_view : Option (List Folder) → Option (List Folder)
recent_view none = none
recent_view (some fs) = some_folders fs

-- The button of a folder: `navigate(`/app/files?folder=${folder.id}`)`.
unfoldable pub folder_address : String → Address
folder_address id = record { path = "/app/files"; query = ("folder", id) ∷ [] }

pub record Usage : Type 0 where
  pub used : ℕ
  pub limit : ℕ
  pub allocated : ℕ
  pub percentage : ℕ
  pub file_count : ℕ
  pub folder_count : ℕ

abbrev pub bar_width : Usage → ℕ
bar_width u = min u.percentage 100

pub data UsageView : Type 0 where
  nothing : UsageView
  only_bar : ℕ → UsageView
  full : Shown → Shown → ℕ → UsageView

unfoldable pub usage_view : Bool → Option Usage → UsageView
usage_view collapsed none = nothing
usage_view true (some u) = only_bar (bar_width u)
usage_view false (some u) = full (format_bytes u.used) (format_bytes u.limit) (bar_width u)
