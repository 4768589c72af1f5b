-- ===== src/Activity/Tests.antt =====
-- Concrete logs: the actions that the server writes, and a column that is JSON for null.
use go_drive.Base.{ℕ, String, some, Option, [], ◌≡◌, ◌↔◌, refl, Dict, includes, get}
use go_drive.Api.{rejected, resolved, type_error}
use go_drive.Activity.{
  Field, Value, null, raw, metadata_parts, badge_for_action, action_label_key, move,
}
use go_drive.Activity.Parts.{IsNullText, IsEmpty, metadata_parts_iff}

abbrev upper : String → String
upper s = "FILE_MOVE_BATCH"

abbrev print : ℕ → String
print n = "3"

abbrev parse : String → Option Value
parse s = some null

abbrev stringify : Dict Field → String
stringify o = "{}"

moved : badge_for_action upper "file_move_batch" ≡ move
unfolding badge_for_action includes
moved = refl

-- The server writes this action for a folder that is deleted with its files.
no_label : action_label_key "folder_delete_with_files" ≡ "activity.action.unknown"
unfolding action_label_key get
no_label = refl

metadata_parts_iff_example :
    ((metadata_parts print parse stringify (raw "null") ≡ rejected type_error)
      ↔ IsNullText parse (raw "null"))
    × ((metadata_parts print parse stringify (raw "null") ≡ resolved []) ↔ IsEmpty (raw "null"))
metadata_parts_iff_example = metadata_parts_iff print parse stringify (raw "null")
