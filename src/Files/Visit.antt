-- ===== src/Files/Visit.antt =====
-- Visits of the files page, sequences of actions and answers: web/src/pages/app/FilesPage.tsx.
use go_drive.Files.Batch.{answered}
use go_drive.Base.{
  ◌≡◌, refl, String, Bool, true, false, not, Option, none, some, List, [], ◌∷◌, Dict, get, truthy,
  ◌==◌, if◌then◌else◌, is_blank, trim, is_blank-trim, arith, Bool-cases, inl, inr, eq_iff,
}
use go_drive.Api.{resolved, rejected}
use go_drive.Files.Batch as Batch
use go_drive.Files.Selection as Selection
use go_drive.Files.Selection.{IsValid}
use go_drive.Files.Page.{
  PageState, ViewMode, list, grid, view_of, view_text, open_page, handle_nav, erase, set_param,
  folder_params, is_searching, on_search, on_tags, open_tag_dialog, Item,
}
use go_drive.Files.Requests.{
  PageRequest, create_folder, rename_item, create_tag, Button, enabled, pressed, Action, act, acts,
  settled, on_success, close, move_item, navigate_to, Dialog, choose_view, delete_item,
  delete_with_files, tags_of, close_dialog, set_file_tags, create_share_link, batch_action, rename,
  move, delete, delete_all, add_tag, save_tags, create, on_target, on_file, folder_dialog,
  rename_dialog, move_dialog, tag_dialog, delete_dialog, delete_all_dialog, menu, drawer,
  type_search, change_filters, press_search, press_clear_search, press_new_folder, details,
  share_item, rename_of, move_of, delete_of, delete_all_of, right_click, tick_tag, type_rename,
  type_folder_name, choose_color, choose_move, type_tag, close_share, copied_link, answered,
}

get-erase :
    (k j : String) (o : Dict String) → get (erase k o) j ≡ (if k == j then none else get o j)
unfolding get erase
get-erase k j [] = ground arith
get-erase k j ((i, w) ∷ o) = ground (arith, eq_iff i k, eq_iff i j, eq_iff k j, get-erase k j o)

get-set_param :
    (k j v : String) (o : Dict String)
    → get (set_param k v o) j ≡ (if k == j then some v else get o j)
unfolding get set_param
get-set_param k j v [] = refl
get-set_param k j v ((i, w) ∷ o) = elim (Bool-cases (i == k)) [
  | inl same ↦ rw same (ground (arith, same, eq_iff i k, eq_iff i j, eq_iff k j, get-erase k j o))
  | inr other ↦
      rw other (ground (arith, other, eq_iff i k, eq_iff i j, eq_iff k j, get-set_param k j v o))
]

-- The folder that an address names.
abbrev pub folder_of : Option String → Option String
folder_of none = none
folder_of (some id) = if truthy id then some id else none

get-folder_params :
    (id : Option String) (o : Dict String) (j : String)
    → get (folder_params id o) j ≡ (if "folder" == j then folder_of id else get o j)
get-folder_params none o j = get-erase "folder" j o
get-folder_params (some id) o j = elim (Bool-cases (truthy id)) [
  | inl there ↦ rw there (get-set_param "folder" j id o)
  | inr root ↦ rw root (get-erase "folder" j o)
]

-- Going to a folder, or to the root, ends the search and the selection: the address names that
-- folder and no search, and every other parameter stays.
pub handle_nav_lem :
    (id : Option String) (s : PageState)
    → let s' = handle_nav id s in
      (is_searching s' ≡ false)
      × (s'.batch.selected_ids ≡ [])
      × (s'.batch.select_mode ≡ false)
      × ((j : String)
          → get s'.search_params j ≡ (
              if "q" == j
              then none
              else if "folder" == j
              then folder_of id
              else get s.search_params j))
unfolding handle_nav is_searching is_blank Batch.clear_selection
handle_nav_lem id s =
    (refl, refl, refl, λ j. rw (get-erase "q" j _, get-folder_params id s.search_params j) refl)

-- Pressing the search button shows the search results exactly when the field is not blank.
on_search_iff : (s : PageState) → is_searching (on_search s) ≡ not (is_blank s.search_input)
unfolding is_searching on_search
on_search_iff s = rw (is_blank-trim s.search_input) refl

-- A request gives no blank name.
abbrev IsNamed : PageRequest → Type 0
IsNamed (create_folder name color parent) = is_blank name ≡ false
IsNamed (rename_item item name) = is_blank name ≡ false
IsNamed (create_tag name) = is_blank name ≡ false
IsNamed _ = Unit

abbrev IsNamedIf : Option PageRequest → Type 0
IsNamedIf none = Unit
IsNamedIf (some req) = IsNamed req

any_target :
    (t : Option Item) (req : Item → PageRequest)
    → ((item : Item) → IsNamed (req item))
    → IsNamedIf (on_target t req)
any_target none req h = tt
any_target (some item) req h = h item

pressed-IsNamedIf :
    (b : Button) (pending : Bool) (s : PageState)
    → enabled b pending s ≡ true
    → IsNamedIf (pressed b s)
unfolding enabled pressed
pressed-IsNamedIf create pending s h = ground (arith, is_blank-trim s.new_folder_name)
pressed-IsNamedIf rename pending s h =
    any_target s.rename_target (λ item. rename_item item (trim s.rename_value))
      (λ item. ground (arith, is_blank-trim s.rename_value))
pressed-IsNamedIf add_tag pending s h = ground (arith, is_blank-trim s.new_tag_name)
pressed-IsNamedIf move pending s h =
    any_target s.move_target (λ item. move_item item s.move_folder_id) (λ item. tt)
pressed-IsNamedIf delete pending s h = any_target s.delete_target delete_item (λ item. tt)
pressed-IsNamedIf delete_all pending s h =
    any_target s.delete_with_files_target delete_with_files (λ item. tt)
pressed-IsNamedIf save_tags pending s h = any_file s.tag_target
  where
    any_file :
        (t : Option String) → IsNamedIf (on_file t (λ id. set_file_tags id s.selected_tag_ids))
    any_file none = tt
    any_file (some id) = tt

-- No button that can be pressed sends a name that is only white space, for a folder, a file or a
-- tag.
pub pressed-IsNamed :
    (b : Button) (pending : Bool) (s : PageState) (req : PageRequest)
    → enabled b pending s ≡ true
    → pressed b s ≡ some req
    → IsNamed req
pressed-IsNamed b pending s req h k = rw k at (pressed-IsNamedIf b pending s h)

-- The selection is valid, and the local storage brings back the view that is shown.
abbrev pub IsKept : PageState → Type 0
IsKept s = IsValid s.batch × (view_of s.stored_view ≡ s.view_mode)

view_of-text : (mode : ViewMode) → view_of (some (view_text mode)) ≡ mode
view_of-text list = refl
view_of-text grid = refl

on_success-IsKept :
    (req : PageRequest) (id : String) (s : PageState) → IsKept s → IsKept (on_success req id s)
unfolding on_success
on_success-IsKept (create_folder name color parent) id s h = h
on_success-IsKept (rename_item item name) id s h = h
on_success-IsKept (move_item item folder_id) id s h = h
on_success-IsKept (delete_item item) id s h = h
on_success-IsKept (delete_with_files item) id s h = h
on_success-IsKept (create_tag name) id s h = h
on_success-IsKept (set_file_tags file tags) id s h = h
on_success-IsKept (create_share_link item) id s h = h

close-IsKept : (d : Dialog) (s : PageState) → IsKept s → IsKept (close d s)
unfolding close
close-IsKept folder_dialog s h = h
close-IsKept rename_dialog s h = h
close-IsKept move_dialog s h = h
close-IsKept tag_dialog s h = h
close-IsKept delete_dialog s h = h
close-IsKept delete_all_dialog s h = h
close-IsKept menu s h = h
close-IsKept drawer s h = h

on_tags-IsKept :
    (file_tags search_tags : Dict (List String)) (id : Option String) (s : PageState)
    → IsKept s
    → IsKept (on_tags file_tags search_tags id s)
unfolding open_tag_dialog
on_tags-IsKept file_tags search_tags none s h = h
on_tags-IsKept file_tags search_tags (some id) s h = h

act-IsKept : (s : PageState) (a : Action) → IsKept s → IsKept (act s a)
unfolding act settled Batch.clear_selection Batch.act
act-IsKept s (navigate_to id) h = (Selection.act-IsValid s.batch Batch.cancel_selection h.0, h.1)
act-IsKept s (choose_view mode) h = (h.0, view_of-text mode)
act-IsKept s (tags_of file_tags search_tags item) h =
    on_tags-IsKept file_tags search_tags item.file_id s h
act-IsKept s (close_dialog d) h = close-IsKept d s h
act-IsKept s (answered req (resolved id)) h = on_success-IsKept req id s h
act-IsKept s (answered req (rejected e)) h = h
act-IsKept s (batch_action a) h = (Selection.act-IsValid s.batch a h.0, h.1)
act-IsKept s (type_search value) h = h
act-IsKept s (change_filters f) h = h
act-IsKept s press_clear_search h = h
act-IsKept s press_search h = h
act-IsKept s press_new_folder h = h
act-IsKept s (details item) h = h
act-IsKept s (share_item item) h = h
act-IsKept s (rename_of item) h = h
act-IsKept s (move_of item) h = h
act-IsKept s (delete_of item) h = h
act-IsKept s (delete_all_of item) h = h
act-IsKept s (right_click item) h = h
act-IsKept s (tick_tag id checked) h = h
act-IsKept s (type_rename value) h = h
act-IsKept s (type_folder_name value) h = h
act-IsKept s (choose_color value) h = h
act-IsKept s (choose_move value) h = h
act-IsKept s (type_tag value) h = h
act-IsKept s close_share h = h
act-IsKept s copied_link h = h

acts-IsKept : (s : PageState) (as' : List Action) → IsKept s → IsKept (acts s as')
unfolding acts
acts-IsKept s [] h = h
acts-IsKept s (a ∷ as') h = acts-IsKept (act s a) as' (act-IsKept s a h)

-- From any address and any stored view, whatever the user does on the page and whatever the server
-- answers, no file is selected twice, none is selected outside select mode, and the stored view is
-- the one that is shown.
pub open_page-IsKept :
    (params : Dict String) (stored : Option String) (as' : List Action)
    → IsKept (acts (open_page params stored Batch.initial) as')
unfolding Batch.acts
open_page-IsKept params stored as' =
    acts-IsKept (open_page params stored Batch.initial) as' (Selection.initial-IsValid [], refl)
