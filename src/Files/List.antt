-- ===== src/Files/List.antt =====
-- The contents of a folder as a list or as a grid: web/src/pages/app/files/FileList.tsx, with the menus
-- of Menu.
use go_drive.Base.{
  ℕ, String, Bool, true, false, Option, none, some, List, [], ◌∷◌, ◌++◌, map, Dict, get,
  if◌then◌else◌, truthy,
}
use go_drive.Format.{Shown, format_bytes}
use go_drive.Files.Batch.{BatchState}
use go_drive.Files.Batch as Batch
use go_drive.Files.Page.{Item, ViewMode, list, grid}
use go_drive.Files.Menu.{Handler, dropdown, context_menu}

pub record Folder : Type 0 where
  pub id : String
  pub name : String
  pub color : String

pub record File : Type 0 where
  pub id : String
  pub name : String
  pub size : ℕ

-- `folderItem` and `fileItem`.
abbrev pub folder_item : Folder → Item
folder_item f = record { id = f.id; name = f.name; is_folder = true; file_id = none }

abbrev pub file_item : File → Item
file_item f = record { id = f.id; name = f.name; is_folder = false; file_id = some f.id }

-- What a click on an entry does.
pub data Click : Type 0 where
  open_folder open_file : String → Click

pub record Entry : Type 0 where
  pub item : Item
  pub click : Click
  pub color : Option String
  pub size : Option Shown
  pub stores : List String
  pub checkbox : Option Bool
  pub has_dropdown : Bool

-- `.slice(0, 1)`, for the tiles of the grid.
abbrev first_only : List String → List String
first_only [] = []
first_only (x ∷ xs) = x ∷ []

abbrev or_none : Option (List String) → List String
or_none none = []
or_none (some l) = l

abbrev stores_shown : ViewMode → List String → List String
stores_shown list names = names
stores_shown grid names = first_only names

-- Only the rows of the list have a dropdown.
abbrev rows : ViewMode → Bool
rows list = true
rows grid = false

module _ (file_stores : Dict (List String)) (batch : BatchState) where
  unfoldable pub folder_entry : ViewMode → Folder → Entry
  folder_entry mode f = record {
    item = folder_item f;
    click = open_folder f.id;
    color = if truthy f.color then some f.color else none;
    size = none;
    stores = [];
    checkbox = none;
    has_dropdown = rows mode;
  }

  unfoldable pub file_entry : ViewMode → File → Entry
  file_entry mode f = record {
    item = file_item f;
    click = open_file f.id;
    color = none;
    size = some (format_bytes f.size);
    stores = stores_shown mode (or_none (get file_stores f.id));
    checkbox = if batch.select_mode then some (Batch.includes f.id batch.selected_ids) else none;
    has_dropdown = rows mode;
  }

  unfoldable pub entries : ViewMode → List Folder → List File → List Entry
  entries mode folders files = map (folder_entry mode) folders ++ map (file_entry mode) files

-- What an entry offers: the context menu, and the dropdown where there is one.
unfoldable pub offered : Bool → Entry → List Handler
offered with_files e =
    (if e.has_dropdown then dropdown with_files e.item else []) ++ context_menu with_files e.item
