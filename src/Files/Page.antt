-- ===== src/Files/Page.antt =====
-- The state of the files page and its handlers: web/src/pages/app/FilesPage.tsx.
use go_drive.Base.{
  String, Bool, false, not, Option, none, some, List, [], ◌∷◌, ◌++◌, Dict, get, filter, truthy,
  ◌==◌, if◌then◌else◌, is_blank, trim,
}
use go_drive.Files.Batch.{BatchState, clear_selection}
use go_drive.Files.Search.{SearchFilters, no_filters}

-- `ItemField`; of the file that it may carry, the page reads the identifier.
pub record Item : Type 0 where
  pub id : String
  pub name : String
  pub is_folder : Bool
  pub file_id : Option String

pub data ViewMode : Type 0 where
  list grid : ViewMode

-- The `useState` cells, the parameters of the address, and the entry of the local storage.
pub record PageState : Type 0 where
  pub search_params : Dict String
  pub search_input : String
  pub active_search : String
  pub search_filters : SearchFilters
  pub view_mode : ViewMode
  pub stored_view : Option String
  pub rename_target : Option Item
  pub rename_value : String
  pub move_target : Option Item
  pub move_folder_id : String
  pub delete_target : Option Item
  pub delete_with_files_target : Option Item
  pub create_open : Bool
  pub new_folder_name : String
  pub new_folder_color : String
  pub context_menu : Option Item
  pub tag_target : Option String
  pub selected_tag_ids : List String
  pub new_tag_name : String
  pub share_target : Option Item
  pub copied : Bool
  pub details_target : Option Item
  pub batch : BatchState

-- `text ?? ''`.
abbrev or_blank : Option String → String
or_blank none = ""
or_blank (some s) = s

-- `saved === 'grid' ? 'grid' : 'list'`.
abbrev pub view_of : Option String → ViewMode
view_of none = list
view_of (some saved) = if saved == "grid" then grid else list

abbrev pub view_text : ViewMode → String
view_text list = "list"
view_text grid = "grid"

-- The page as it is first shown, for an address and what was stored.
abbrev pub open_page : Dict String → Option String → BatchState → PageState
open_page params stored batch = record {
  search_params = params;
  search_input = or_blank (get params "q");
  active_search = or_blank (get params "q");
  search_filters = no_filters;
  view_mode = view_of stored;
  stored_view = stored;
  rename_target = none;
  rename_value = "";
  move_target = none;
  move_folder_id = "";
  delete_target = none;
  delete_with_files_target = none;
  create_open = false;
  new_folder_name = "";
  new_folder_color = "#f59e0b";
  context_menu = none;
  tag_target = none;
  selected_tag_ids = [];
  new_tag_name = "";
  share_target = none;
  copied = false;
  details_target = none;
  batch = batch;
}

-- `URLSearchParams.delete` and `set`, which leaves one pair of the name, in the first one's place.
unfoldable pub erase : String → Dict String → Dict String
erase k [] = []
erase k ((j, v) ∷ o) = let rest = erase k o in if j == k then rest else (j, v) ∷ rest

unfoldable pub set_param : String → String → Dict String → Dict String
unfolding erase
set_param k v [] = (k, v) ∷ []
set_param k v ((j, w) ∷ o) =
    let rest = set_param k v o in if j == k then (j, v) ∷ erase k o else (j, w) ∷ rest

-- The folder of the address that `handleNav` goes to; the root has none.
abbrev pub folder_params : Option String → Dict String → Dict String
folder_params none o = erase "folder" o
folder_params (some id) o = if truthy id then set_param "folder" id o else erase "folder" o

unfoldable pub handle_nav : Option String → PageState → PageState
unfolding erase set_param
handle_nav id s = record s {
  batch = clear_selection s.batch;
  active_search = "";
  search_input = "";
  search_params = erase "q" (folder_params id s.search_params);
}

-- `isSearching`.
unfoldable pub is_searching : PageState → Bool
is_searching s = not (is_blank s.active_search)

-- `setActiveSearch(searchInput.trim())`, and the button that ends the search.
unfoldable pub on_search : PageState → PageState
on_search s = record s { active_search = trim s.search_input }

unfoldable pub clear_search : PageState → PageState
clear_search s = record s { active_search = ""; search_input = "" }

unfoldable pub toggle_view : ViewMode → PageState → PageState
toggle_view mode s = record s { view_mode = mode; stored_view = some (view_text mode) }

-- The tags of each file as the last answers gave them, by file.
abbrev or_no_tags : Option (List String) → List String
or_no_tags none = []
or_no_tags (some ids) = ids

-- `openTagDialog`, with the tags of the listed and of the found files.
unfoldable pub open_tag_dialog :
    Dict (List String) → Dict (List String) → String → PageState → PageState
unfolding is_searching
open_tag_dialog file_tags search_tags id s = record s {
  selected_tag_ids = or_no_tags (get (if is_searching s then search_tags else file_tags) id);
  new_tag_name = "";
  tag_target = some id;
}

-- `item.file && openTagDialog(item.file)`.
abbrev pub on_tags : Dict (List String) → Dict (List String) → Option String → PageState → PageState
on_tags file_tags search_tags none s = s
on_tags file_tags search_tags (some id) s = open_tag_dialog file_tags search_tags id s

-- The box of a tag in the tag dialog.
unfoldable pub check_tag : String → Bool → PageState → PageState
check_tag id checked s = record s {
  selected_tag_ids =
      if checked
      then s.selected_tag_ids ++ id ∷ []
      else filter (λ j. not (j == id)) s.selected_tag_ids;
}
