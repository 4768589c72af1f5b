-- ===== src/Files/Drawer.antt =====
-- The panel with the details of an item, and the toolbar of the files page:
-- web/src/pages/app/files/FileDetailsDrawer.tsx and FileToolbar.tsx. The printing of a date is an argument.
use go_drive.Base.{
  ℕ, String, Bool, true, false, not, ◌||◌, Option, none, some, List, [], ◌∷◌, ◌++◌, truthy, or_text,
  if◌then◌else◌, ◌==◌, map,
}
use go_drive.Format.{Shown, format_bytes}
use go_drive.Files.Search.{SearchFilters}
use go_drive.Files.Page.{Item, ViewMode, list, grid}
use go_drive.Files.Menu.{Handler, on_download, on_rename, on_move, on_share, on_delete}

-- The parts of a file or a folder that the panel reads.
pub record FileInfo : Type 0 where
  pub mime_type : String
  pub size : ℕ
  pub storage_provider : String

pub record Dates : Type 0 where
  pub created_at : Option String
  pub updated_at : Option String

pub record Drawer : Type 0 where
  pub title : String
  pub description : String
  pub size : Option Shown
  pub provider : Option String
  pub created : String
  pub updated : String
  pub stores : List String
  pub tags : List String
  pub buttons : List Handler

abbrev or_type : Option FileInfo → String
or_type none = "files.type"
or_type (some f) = or_text f.mime_type "files.type"

-- The rows that only a file has.
abbrev size_of : Bool → Option FileInfo → Option Shown
size_of true file = none
size_of false none = none
size_of false (some f) = some (format_bytes f.size)

abbrev provider_of : Bool → Option FileInfo → Option String
provider_of true file = none
provider_of false none = none
provider_of false (some f) = some (or_text f.storage_provider "—")

abbrev for_file : Bool → List String → List String
for_file true names = []
for_file false names = names

-- The buttons, top down.
unfoldable pub buttons : Item → List Handler
buttons item =
    (if item.is_folder then [] else on_download ∷ [])
    ++ on_rename ∷ on_move ∷ on_share ∷ on_delete ∷ []

module _ (date : String → String) where
  -- `formatDate`.
  abbrev date_or_dash : Option String → String
  date_or_dash none = "—"
  date_or_dash (some v) = if truthy v then date v else "—"

  unfoldable pub drawer : Item → Option FileInfo → Dates → List String → List String → Drawer
  drawer item file dates stores tags = record {
    title = item.name;
    description = if item.is_folder then "files.folder" else or_type file;
    size = size_of item.is_folder file;
    provider = provider_of item.is_folder file;
    created = date_or_dash dates.created_at;
    updated = date_or_dash dates.updated_at;
    stores = for_file item.is_folder stores;
    tags = for_file item.is_folder tags;
    buttons = buttons item;
  }

-- The kinds that the toolbar offers, each with whether it is the chosen one, and whether some filter is
-- set, which marks the button.
abbrev kind_options : List String
kind_options = "" ∷ "image/" ∷ "video/" ∷ "audio/" ∷ "application/" ∷ []

abbrev or_blank : Option String → String
or_blank none = ""
or_blank (some s) = s

unfoldable pub kind_choices : SearchFilters → List (String × Bool)
kind_choices f = map (λ k. (k, or_blank f.kind == k)) kind_options

unfoldable pub has_filter : SearchFilters → Bool
has_filter f =
    truthy (or_blank f.kind)
    || truthy (or_blank f.min_size)
    || truthy (or_blank f.max_size)
    || truthy (or_blank f.from)
    || truthy (or_blank f.to)

-- The toolbar's buttons that show a state.
pub record Toolbar : Type 0 where
  pub search : String
  pub filtered : Bool
  pub list_pressed : Bool
  pub grid_pressed : Bool
  pub select_pressed : Bool
  pub upload_enabled : Bool

abbrev is_grid : ViewMode → Bool
is_grid grid = true
is_grid list = false

unfoldable pub toolbar : String → SearchFilters → ViewMode → Bool → Bool → Toolbar
toolbar search f mode select_mode upload_pending = record {
  search = search;
  filtered = has_filter f;
  list_pressed = not (is_grid mode);
  grid_pressed = is_grid mode;
  select_pressed = select_mode;
  upload_enabled = not upload_pending;
}
