-- ===== src/Files/Folders.antt =====
-- The tree of folders of the dialog that moves an item: web/src/pages/app/files/FolderPicker.tsx.
-- A row is known by the identifiers on its way from the root, the deepest first. Which rows are
-- expanded and what the query for a folder's children has given are arguments.
pub mod Rows
use Prim.Native.String
use go_drive.Base.{
  ℕ, zero, suc, ◌+◌, ◌≤◌, String, Bool, false, Option, none, some, List, [], ◌∷◌, ◌++◌, length,
  if◌then◌else◌, ◌==◌, ◌≡◌, refl, arith,
}
use go_drive.Files.Cache.{Key}
use go_drive.Files.Cache as Cache

pub record Folder : Type 0 where
  pub id : String
  pub name : String

-- The queries of the root and of a folder that is expanded.
abbrev pub root_key : String → Key
root_key org = Cache.text "t" ∷ Cache.text "folders" ∷ Cache.text org ∷ Cache.text "root" ∷ []

abbrev pub children_key : String → String → Key
children_key org id = Cache.text "t" ∷ Cache.text "folders" ∷ Cache.text org ∷ Cache.text id ∷ []

unfoldable pub children_path : String → String
children_path id = String.◌++◌ "/api/t/folders?parentId=" id

-- A line of the tree: a folder, with whether it is expanded and selected, or that its children load.
pub data Line : Type 0 where
  folder : List String → String → Bool → Bool → Line
  loading : List String → Line

-- The row that selects the root, and its identifier.
pub record Root : Type 0 where
  pub selected : Bool
  pub reports : String

unfoldable pub root_of : String → Root
root_of value = record { selected = value == ""; reports = "" }

-- `childrenQuery.data?.folders ?? []`, and the line for a query that is pending.
abbrev or_none : Option (List Folder) → List Folder
or_none none = []
or_none (some fs) = fs

abbrev pending_line : Option (List Folder) → List String → List Line
pending_line none path = loading path ∷ []
pending_line (some fs) path = []

module _ (expanded : List String → Bool) (children : String → Option (List Folder))
    (value : String) where
  -- The lines for some folders below a path, down to a depth.
  unfoldable pub lines : ℕ → List String → List Folder → List Line
  lines zero path fs = []
  lines (suc n) path [] = []
  lines (suc n) path (f ∷ fs) =
      let here = f.id ∷ path in
      let below = lines n here (or_none (children f.id)) in
      let rest = lines (suc n) path fs in
      folder here f.name (expanded here) (value == f.id)
        ∷ (if expanded here then pending_line (children f.id) here ++ below else [])
      ++ rest
