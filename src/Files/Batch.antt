-- ===== src/Files/Batch.antt =====
-- The select-multiple mode: web/src/pages/app/files/batchOps.ts, with the conditions of
-- BatchFileBar.tsx and FileList.tsx under which its handlers can be called.
use go_drive.Base.{
  String, Bool, true, false, not, ◌&&◌, List, [], ◌∷◌, ◌++◌, filter, any, length, ltb, ◌==◌,
  if◌then◌else◌,
}
use go_drive.Api.{Outcome, resolved, rejected}

pub record BatchState : Type 0 where
  pub select_mode : Bool
  pub selected_ids : List String
  pub move_open : Bool
  pub move_folder_id : String
  pub delete_open : Bool

abbrev pub initial : BatchState
initial = record {
  select_mode = false;
  selected_ids = [];
  move_open = false;
  move_folder_id = "";
  delete_open = false;
}

-- `ids.includes(id)`.
abbrev pub includes : String → List String → Bool
includes id ids = any (λ j. j == id) ids

-- The update function of `toggleSelect`.
unfoldable pub toggle : String → List String → List String
toggle id ids = if includes id ids then filter (λ j. not (j == id)) ids else ids ++ id ∷ []

unfoldable pub toggle_select_mode : BatchState → BatchState
toggle_select_mode s = record s { select_mode = not s.select_mode; selected_ids = [] }

unfoldable pub toggle_select : String → BatchState → BatchState
toggle_select id s = record s { selected_ids = toggle id s.selected_ids }

unfoldable pub clear_selection : BatchState → BatchState
clear_selection s = record s { selected_ids = []; select_mode = false }

unfoldable pub set_move_open : Bool → BatchState → BatchState
set_move_open open_now s = record s { move_open = open_now }

unfoldable pub set_move_folder_id : String → BatchState → BatchState
set_move_folder_id value s = record s { move_folder_id = value }

unfoldable pub set_delete_open : Bool → BatchState → BatchState
set_delete_open open_now s = record s { delete_open = open_now }

-- The body of a request to /api/t/files/batch.
pub data BatchRequest : Type 0 where
  move_files : List String → String → BatchRequest
  delete_files : List String → BatchRequest

-- `onSuccess` of either mutation; a failure changes nothing but the message that is shown.
unfoldable pub on_success : BatchRequest → BatchState → BatchState
on_success (move_files ids folder_id) s = record s {
  move_open = false;
  move_folder_id = "";
  selected_ids = [];
  select_mode = false;
}
on_success (delete_files ids) s = record s {
  delete_open = false;
  selected_ids = [];
  select_mode = false;
}

unfoldable pub settled {ℓ} : {T : Type ℓ} → BatchRequest → Outcome T → BatchState → BatchState
settled req (resolved _) s = on_success req s
settled req (rejected _) s = s

-- The bar with the two buttons is shown for a selection only.
unfoldable pub bar_shown : BatchState → Bool
bar_shown s = s.select_mode && ltb 0 (length s.selected_ids)

-- What the user does, and the answers to the requests made before. A box can be ticked in select
-- mode only, and the dialogs are opened from the bar.
pub data Action : Type 0 where
  press_select_mode : Action
  tick : String → Action
  cancel_selection : Action
  open_move : Action
  close_move : Action
  pick_folder : String → Action
  open_delete : Action
  close_delete : Action
  answered : BatchRequest → Outcome (Unit {0}) → Action

unfoldable pub act : BatchState → Action → BatchState
act s press_select_mode = toggle_select_mode s
act s (tick id) = if s.select_mode then toggle_select id s else s
act s cancel_selection = clear_selection s
act s open_move = if bar_shown s then set_move_open true s else s
act s close_move = set_move_open false s
act s (pick_folder id) = set_move_folder_id id s
act s open_delete = if bar_shown s then set_delete_open true s else s
act s close_delete = set_delete_open false s
act s (answered req r) = settled req r s

unfoldable pub acts : BatchState → List Action → BatchState
acts s [] = s
acts s (a ∷ as') = acts (act s a) as'

-- What the Move and the Delete button of the dialogs send.
unfoldable move_request : BatchState → BatchRequest
move_request s = move_files s.selected_ids s.move_folder_id

unfoldable delete_request : BatchState → BatchRequest
delete_request s = delete_files s.selected_ids
