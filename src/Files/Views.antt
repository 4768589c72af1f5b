-- ===== src/Files/Views.antt =====
-- What the list and the grid of a folder have in common: FileList.tsx.
use go_drive.Base.{
  String, Bool, true, false, Option, List, [], ◌∷◌, map, Dict, any, ◌≡◌, refl, ap, All,
}
use go_drive.Files.Batch.{BatchState}
use go_drive.Files.Page.{Item, ViewMode, list, grid}
use go_drive.Files.Menu.{dropdown, context_menu, is_details}
use go_drive.Files.List.{Folder, File, Entry, Click, folder_entry, file_entry, entries, offered}

-- An entry apart from its names of stores and its dropdown.
abbrev pub core : Entry → Item × Click × Option Bool
core e = (e.item, e.click, e.checkbox)

abbrev is_list : ViewMode → Bool
is_list list = true
is_list grid = false

-- Whether an entry offers the details.
abbrev pub has_details : Bool → Entry → Bool
has_details with_files e = any is_details (offered with_files e)

module _ (file_stores : Dict (List String)) (batch : BatchState) where
  files_same :
      (fs : List File)
      → map core (map (file_entry file_stores batch grid) fs)
        ≡ map core (map (file_entry file_stores batch list) fs)
  unfolding file_entry
  files_same [] = refl
  files_same (f ∷ fs) = ap (λ l. core (file_entry file_stores batch list f) ∷ l) (files_same fs)

  entries_same :
      (folders : List Folder) (files : List File)
      → map core (entries file_stores batch grid folders files)
        ≡ map core (entries file_stores batch list folders files)
  unfolding entries folder_entry
  entries_same [] files = files_same files
  entries_same (f ∷ fs) files =
      ap (λ l. core (folder_entry file_stores batch list f) ∷ l) (entries_same fs files)

  folder_details :
      (mode : ViewMode) (with_files : Bool) (f : Folder)
      → has_details with_files (folder_entry file_stores batch mode f) ≡ is_list mode
  unfolding offered folder_entry dropdown context_menu
  folder_details list true f = refl
  folder_details list false f = refl
  folder_details grid true f = refl
  folder_details grid false f = refl

  file_details :
      (mode : ViewMode) (with_files : Bool) (f : File)
      → has_details with_files (file_entry file_stores batch mode f) ≡ is_list mode
  unfolding offered file_entry dropdown context_menu
  file_details list true f = refl
  file_details list false f = refl
  file_details grid true f = refl
  file_details grid false f = refl

  files_details :
      (mode : ViewMode) (with_files : Bool) (fs : List File)
      → All
          (λ e. has_details with_files e ≡ is_list mode)
          (map (file_entry file_stores batch mode) fs)
  files_details mode with_files [] = tt
  files_details mode with_files (f ∷ fs) =
      (file_details mode with_files f, files_details mode with_files fs)

  entries_details :
      (mode : ViewMode) (with_files : Bool) (folders : List Folder) (files : List File)
      → All
          (λ e. has_details with_files e ≡ is_list mode)
          (entries file_stores batch mode folders files)
  unfolding entries
  entries_details mode with_files [] files = files_details mode with_files files
  entries_details mode with_files (f ∷ fs) files =
      (folder_details mode with_files f, entries_details mode with_files fs files)

  -- The list and the grid show the same folders and files in the same order, with the same click and the
  -- same checkbox; but the details can be opened from every entry of the list, and from none of the
  -- grid.
  pub entries_lem :
      (with_files : Bool) (folders : List Folder) (files : List File)
      → (map core (entries file_stores batch grid folders files)
          ≡ map core (entries file_stores batch list folders files))
        × All (λ e. has_details with_files e ≡ true) (entries file_stores batch list folders files)
        × All (λ e. has_details with_files e ≡ false) (entries file_stores batch grid folders files)
  entries_lem with_files folders files = (
    entries_same folders files,
    entries_details list with_files folders files,
    entries_details grid with_files folders files,
  )
