-- ===== src/Files/Requests.antt =====
-- The mutations of the files page: what FilesPage.tsx sends, what it does with the answers, and the
-- conditions of the dialogs' buttons in FileDialogs.tsx.
use Prim.Native.String
use go_drive.Base.{
  String, Bool, true, false, not, ◌||◌, Option, none, some, List, [], ◌∷◌, ◌++◌, Dict, get, truthy,
  if◌then◌else◌, is_blank, trim,
}
use go_drive.Api.{Outcome, resolved, rejected}
use go_drive.Files.Search.{SearchFilters}
use go_drive.Files.Batch as Batch
use go_drive.Files.Page.{
  Item, PageState, ViewMode, handle_nav, on_search, clear_search, toggle_view, on_tags, check_tag,
}

pub data PageRequest : Type 0 where
  create_folder : String → String → Option String → PageRequest
  rename_item : Item → String → PageRequest
  move_item : Item → String → PageRequest
  delete_item : Item → PageRequest
  delete_with_files : Item → PageRequest
  create_tag : String → PageRequest
  set_file_tags : String → List String → PageRequest
  create_share_link : Item → PageRequest

-- A field of a body.
pub data Field : Type 0 where
  text : String → Field
  texts : List String → Field
  null : Field

pub record Wire : Type 0 where
  pub path : String
  pub method : String
  pub body : Dict Field

-- `/api/t/${item.isFolder ? 'folders' : 'files'}/${item.id}`.
abbrev item_path : Item → String
item_path item = String.◌++◌ (if item.is_folder then "/api/t/folders/" else "/api/t/files/") item.id

-- `folderId || null`.
abbrev text_or_null : String → Field
text_or_null s = if truthy s then text s else null

-- `parentId: currentFolderId ?? undefined`, which is left out.
abbrev parent_field : Option String → Dict Field
parent_field none = []
parent_field (some id) = ("parentId", text id) ∷ []

unfoldable wire : PageRequest → Wire
wire (create_folder name color parent) = record {
  path = "/api/t/folders";
  method = "POST";
  body = ("name", text name) ∷ ("color", text color) ∷ parent_field parent;
}
wire (rename_item item name) = record {
  path = item_path item;
  method = "PATCH";
  body = ("name", text name) ∷ [];
}
wire (move_item item folder_id) = record {
  path = item_path item;
  method = "PATCH";
  body = (if item.is_folder then "parentId" else "folderId", text_or_null folder_id) ∷ [];
}
wire (delete_item item) = record { path = item_path item; method = "DELETE"; body = [] }
wire (delete_with_files item) = record {
  path = String.◌++◌ (String.◌++◌ "/api/t/folders/" item.id) "?with_files=true";
  method = "DELETE";
  body = [];
}
wire (create_tag name) = record {
  path = "/api/t/tags";
  method = "POST";
  body = ("name", text name) ∷ [];
}
wire (set_file_tags id tags) = record {
  path = "/api/t/tags/set-file-tags";
  method = "POST";
  body = ("fileId", text id) ∷ ("tagIds", texts tags) ∷ [];
}
wire (create_share_link item) = record {
  path = "/api/t/share-links";
  method = "POST";
  body =
      (if item.is_folder then "folderId" else "fileId", text item.id)
      ∷ ("access", text "download")
      ∷ [];
}

-- `onSuccess` of each mutation; a created tag has the identifier that the server gave.
unfoldable pub on_success : PageRequest → String → PageState → PageState
on_success (create_folder name color parent) id s = record s {
  create_open = false;
  new_folder_name = "";
}
on_success (rename_item item name) id s = record s { rename_target = none }
on_success (move_item item folder_id) id s = record s { move_target = none; move_folder_id = "" }
on_success (delete_item item) id s = record s { delete_target = none }
on_success (delete_with_files item) id s = record s { delete_with_files_target = none }
on_success (create_tag name) id s = record s {
  selected_tag_ids = s.selected_tag_ids ++ id ∷ [];
  new_tag_name = "";
}
on_success (set_file_tags file tags) id s = record s { tag_target = none }
on_success (create_share_link item) id s = s

unfoldable pub settled : PageRequest → Outcome String → PageState → PageState
unfolding on_success
settled req (resolved id) s = on_success req id s
settled req (rejected e) s = s

-- The buttons of the dialogs.
pub data Button : Type 0 where
  create rename move delete delete_all add_tag save_tags : Button

-- `disabled={…}` of each, with whether its mutation is on its way.
unfoldable pub enabled : Button → Bool → PageState → Bool
enabled create pending s = not (is_blank s.new_folder_name || pending)
enabled rename pending s = not (is_blank s.rename_value || pending)
enabled add_tag pending s = not (is_blank s.new_tag_name || pending)
enabled _ pending s = not pending

abbrev pub on_target : Option Item → (Item → PageRequest) → Option PageRequest
on_target none req = none
on_target (some item) req = some (req item)

abbrev pub on_file : Option String → (String → PageRequest) → Option PageRequest
on_file none req = none
on_file (some id) req = some (req id)

-- What each button sends.
unfoldable pub pressed : Button → PageState → Option PageRequest
pressed create s =
    some (create_folder (trim s.new_folder_name) s.new_folder_color (get s.search_params "folder"))
pressed rename s = on_target s.rename_target (λ item. rename_item item (trim s.rename_value))
pressed move s = on_target s.move_target (λ item. move_item item s.move_folder_id)
pressed delete s = on_target s.delete_target delete_item
pressed delete_all s = on_target s.delete_with_files_target delete_with_files
pressed add_tag s = some (create_tag (trim s.new_tag_name))
pressed save_tags s = on_file s.tag_target (λ id. set_file_tags id s.selected_tag_ids)

-- The dialogs, the context menu and the drawer, each of which the user can close.
pub data Dialog : Type 0 where
  folder_dialog rename_dialog move_dialog tag_dialog delete_dialog delete_all_dialog menu drawer :
      Dialog

unfoldable pub close : Dialog → PageState → PageState
close folder_dialog s = record s { create_open = false }
close rename_dialog s = record s { rename_target = none }
close move_dialog s = record s { move_target = none }
close tag_dialog s = record s { tag_target = none }
close delete_dialog s = record s { delete_target = none }
close delete_all_dialog s = record s { delete_with_files_target = none }
close menu s = record s { context_menu = none }
close drawer s = record s { details_target = none }

-- What the user does on the page, and the answers to requests.
pub data Action : Type 0 where
  navigate_to : Option String → Action
  type_search : String → Action
  change_filters : SearchFilters → Action
  press_search press_clear_search press_new_folder : Action
  choose_view : ViewMode → Action
  details share_item rename_of move_of delete_of delete_all_of right_click : Item → Action
  tags_of : Dict (List String) → Dict (List String) → Item → Action
  tick_tag : String → Bool → Action
  type_rename type_folder_name choose_color choose_move type_tag : String → Action
  close_dialog : Dialog → Action
  close_share copied_link : Action
  answered : PageRequest → Outcome String → Action
  batch_action : Batch.Action → Action

unfoldable pub act : PageState → Action → PageState
unfolding handle_nav on_search clear_search toggle_view check_tag settled close
act s (navigate_to id) = handle_nav id s
act s (type_search value) = record s { search_input = value }
act s (change_filters f) = record s { search_filters = f }
act s press_search = on_search s
act s press_clear_search = clear_search s
act s press_new_folder = record s { create_open = true }
act s (choose_view mode) = toggle_view mode s
act s (details item) = record s { details_target = some item }
act s (share_item item) = record s { copied = false; share_target = some item }
act s (rename_of item) = record s { rename_target = some item; rename_value = item.name }
act s (move_of item) = record s { move_target = some item; move_folder_id = "" }
act s (delete_of item) = record s { delete_target = some item }
act s (delete_all_of item) = record s { delete_with_files_target = some item }
act s (right_click item) = record s { context_menu = some item }
act s (tags_of file_tags search_tags item) = on_tags file_tags search_tags item.file_id s
act s (tick_tag id checked) = check_tag id checked s
act s (type_rename value) = record s { rename_value = value }
act s (type_folder_name value) = record s { new_folder_name = value }
act s (choose_color value) = record s { new_folder_color = value }
act s (choose_move value) = record s { move_folder_id = value }
act s (type_tag value) = record s { new_tag_name = value }
act s (close_dialog d) = close d s
act s close_share = record s { share_target = none; copied = false }
act s copied_link = record s { copied = true }
act s (answered req r) = settled req r s
act s (batch_action a) = record s { batch = Batch.act s.batch a }

unfoldable pub acts : PageState → List Action → PageState
acts s [] = s
acts s (a ∷ as') = acts (act s a) as'
