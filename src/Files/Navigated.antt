-- ===== src/Files/Navigated.antt =====
-- A folder that the user goes to is the one that is asked for and shown: `handleNav` of
-- web/src/pages/app/FilesPage.tsx with the queries and the markup of the page.
use go_drive.Base.{
  String, Bool, true, false, Option, none, some, List, truthy, ◌≡◌, refl, ap, ◌∙◌, Bool-cases, inl,
  inr,
}
use go_drive.Files.List.{Folder}
use go_drive.Files.Page.{PageState, handle_nav}
use go_drive.Files.Visit.{handle_nav_lem, folder_of}
use go_drive.Files.Content.{
  Query, FilesData, Content, folder, results, content, asked_folders, asked_files, folder_param,
}

-- Whether the part of a folder is shown.
abbrev pub is_folder : Content → Bool
is_folder (folder k e n l) = true
is_folder (results q c k e n l) = false

param_of :
    (key : String) (id : Option String) → folder_param key (folder_of id) ≡ folder_param key id
param_of key none = refl
param_of key (some id) = elim (Bool-cases (truthy id)) [
  | inl y ↦ rw y (rw y refl)
  | inr n ↦ rw n refl
]

-- After `handleNav` the page shows a folder, whatever was searched before, and asks for the folders
-- and the files of the one that was given; the root is asked for without a parameter.
pub navigated_lem :
    (id : Option String) (s : PageState) (folders : Query (List Folder))
    (files found : Query FilesData)
    → let s' = handle_nav id s in
      (is_folder (content s' folders files found) ≡ true)
      × ((asked_folders s').params ≡ folder_param "parentId" id)
      × ((asked_files s').params ≡ folder_param "folderId" id)
unfolding content asked_folders asked_files
navigated_lem id s folders files found =
    let (q, b, m, p) = handle_nav_lem id s in
    let here = p "folder" in
    (
      rw q refl,
      ap (folder_param "parentId") here ∙ param_of "parentId" id,
      ap (folder_param "folderId") here ∙ param_of "folderId" id,
    )
