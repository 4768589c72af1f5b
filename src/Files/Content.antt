-- ===== src/Files/Content.antt =====
-- What the files page asks the server for and what it shows of the answers: the queries and the
-- markup of web/src/pages/app/FilesPage.tsx.
use go_drive.Base.{
  ℕ, String, Bool, true, false, not, ◌&&◌, ◌||◌, Option, none, some, List, [], ◌∷◌, ◌++◌, Dict, get,
  length, truthy, if◌then◌else◌,
}
use go_drive.Files.List.{Folder, File, Entry, entries}
use go_drive.Files.Page.{PageState, is_searching}
use go_drive.Files.Search.{build_search_params}

-- A query, enabled once there is an organization: its path and parameters.
pub record Asked : Type 0 where
  pub path : String
  pub params : Dict String

-- `currentFolderId`, and a parameter of the given name for it.
abbrev pub current_folder : PageState → Option String
current_folder s = get s.search_params "folder"

abbrev pub folder_param : String → Option String → Dict String
folder_param key none = []
folder_param key (some id) = if truthy id then (key, id) ∷ [] else []

unfoldable pub asked_folders : PageState → Asked
asked_folders s = record {
  path = "/api/t/folders";
  params = folder_param "parentId" (current_folder s);
}

unfoldable pub asked_files : PageState → Asked
asked_files s = record {
  path = "/api/t/files";
  params = folder_param "folderId" (current_folder s);
}

unfoldable pub asked_breadcrumbs : PageState → Asked
asked_breadcrumbs s = record {
  path = "/api/t/folders/breadcrumbs";
  params = folder_param "folderId" (current_folder s);
}

unfoldable pub asked_search : PageState → Asked
asked_search s = record {
  path = "/api/t/files/search";
  params = build_search_params s.active_search s.search_filters;
}

abbrev when_set : Option String → List Asked → List Asked
when_set none asked = []
when_set (some id) asked = asked

unfoldable pub asked : Option String → PageState → List Asked
asked none s = []
asked (some org_slug) s =
    if truthy org_slug
    then asked_folders s
        ∷ asked_files s
        ∷ asked_breadcrumbs s
        ∷ record { path = "/api/t/storage/usage"; params = [] }
        ∷ (if is_searching s then asked_search s ∷ [] else [])
      ++ when_set s.tag_target (record { path = "/api/t/tags"; params = [] } ∷ [])
    else []

-- The state of a query; one that failed to be refreshed keeps its data.
pub data Status : Type 0 where
  pending failed success : Status

pub record Query {ℓ} (A : Type ℓ) : Type ℓ where
  pub status : Status
  pub data_of : Option A

abbrev pub is_pending : Status → Bool
is_pending pending = true
is_pending _ = false

abbrev pub is_error : Status → Bool
is_error failed = true
is_error _ = false

abbrev pub is_success : Status → Bool
is_success success = true
is_success _ = false

pub record FilesData : Type 0 where
  pub files : List File
  pub stores : Dict (List String)

-- `query.data?.… ?? []` and `?? {}`.
abbrev pub folders_of : Option (List Folder) → List Folder
folders_of none = []
folders_of (some fs) = fs

abbrev pub files_of : Option FilesData → List File
files_of none = []
files_of (some d) = d.files

abbrev pub stores_of : Option FilesData → Dict (List String)
stores_of none = []
stores_of (some d) = d.stores

abbrev pub is_nil {ℓ} : {A : Type ℓ} → List A → Bool
is_nil [] = true
is_nil (x ∷ xs) = false

-- The parts of the page below the breadcrumbs: `count` and `none_found` belong to a search, the
-- empty state to a folder.
pub data Content : Type 0 where
  results :
      (query : String) (count : ℕ) (skeleton load_error none_found : Bool) → List Entry → Content
  folder : (skeleton load_error empty_state : Bool) → List Entry → Content

unfoldable pub content :
    PageState → Query (List Folder) → Query FilesData → Query FilesData → Content
content s folders files found =
    if is_searching s
    then results s.active_search (length (files_of found.data_of)) (is_pending found.status)
        (is_error found.status) (is_success found.status && is_nil (files_of found.data_of))
        (entries [] s.batch s.view_mode [] (files_of found.data_of))
    else folder (is_pending folders.status || is_pending files.status)
        (is_error folders.status || is_error files.status)
        (not (is_pending folders.status)
          && not (is_pending files.status)
          && is_nil (folders_of folders.data_of)
          && is_nil (files_of files.data_of))
        (entries (stores_of files.data_of) s.batch s.view_mode (folders_of folders.data_of)
          (files_of files.data_of))
