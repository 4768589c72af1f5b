-- ===== src/Files/Menu.antt =====
-- The two menus of a file or a folder: FileItemActions.tsx, and the context menu of FileDialogs.tsx.
use go_drive.Base.{
  Bool, true, false, not, ◌&&◌, List, [], ◌∷◌, ◌++◌, filter, any, if◌then◌else◌, ◌≡◌, refl,
  Bool-cases, inl, inr,
}
use go_drive.Files.Page.{Item}

-- The fields of `ItemActions`.
pub data Handler : Type 0 where
  on_details on_preview on_download on_tags on_share on_rename on_move on_delete : Handler
  on_delete_with_files : Handler

-- `{shown && <entry>}`.
abbrev entry_if : Bool → Handler → List Handler
entry_if shown h = if shown then h ∷ [] else []

-- The entries of the dropdown, top down; the argument says whether `actions.onDeleteWithFiles` is
-- there.
unfoldable pub dropdown : Bool → Item → List Handler
dropdown with_files item =
    entry_if (not item.is_folder) on_preview
    ++ entry_if (not item.is_folder) on_download
    ++ entry_if (not item.is_folder) on_tags
    ++ (on_details ∷ on_share ∷ on_rename ∷ on_move ∷ [])
    ++ entry_if (item.is_folder && with_files) on_delete_with_files
    ++ on_delete ∷ []

unfoldable pub context_menu : Bool → Item → List Handler
context_menu with_files item =
    entry_if (not item.is_folder) on_preview
    ++ entry_if (not item.is_folder) on_download
    ++ entry_if (not item.is_folder) on_tags
    ++ (on_share ∷ on_rename ∷ on_move ∷ [])
    ++ entry_if (item.is_folder && with_files) on_delete_with_files
    ++ on_delete ∷ []

abbrev pub is_details : Handler → Bool
is_details on_details = true
is_details _ = false

-- The handlers that need a file, and the one that needs a folder.
abbrev pub wants_file : Handler → Bool
wants_file on_preview = true
wants_file on_download = true
wants_file on_tags = true
wants_file _ = false

abbrev pub wants_folder : Handler → Bool
wants_folder on_delete_with_files = true
wants_folder _ = false

-- The context menu offers what the dropdown offers, in the same order, except for the details,
-- which only the dropdown offers; and neither offers a folder what only a file has, or a file what
-- only a folder has.
pub context_menu_lem :
    (with_files : Bool) (item : Item)
    → (context_menu with_files item ≡ filter (λ h. not (is_details h)) (dropdown with_files item))
      × (any is_details (dropdown with_files item) ≡ true)
      × (any wants_file (dropdown with_files item) ≡ not item.is_folder)
      × (any wants_folder (dropdown with_files item) ≡ (item.is_folder && with_files))
unfolding context_menu dropdown
context_menu_lem true item = elim (Bool-cases item.is_folder) [
  | inl folder ↦ rw folder (refl, refl, refl, refl)
  | inr file ↦ rw file (refl, refl, refl, refl)
]
context_menu_lem false item = elim (Bool-cases item.is_folder) [
  | inl folder ↦ rw folder (refl, refl, refl, refl)
  | inr file ↦ rw file (refl, refl, refl, refl)
]
