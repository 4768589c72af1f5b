-- ===== src/Activity.antt =====
-- The rows of the activity log: web/src/pages/app/activity/activity.ts, ActivityLogRow.tsx and
-- web/src/pages/app/ActivityLogPage.tsx. `toUpperCase`, `JSON.parse`, `JSON.stringify` and the printing of
-- numbers and dates are arguments.
pub mod Parts
mod Tests
use go_drive.Base.{
  ℕ, zero, suc, String, Bool, true, false, not, ◌&&◌, ◌||◌, Option, none, some, List, [], ◌∷◌, ◌++◌,
  Dict, get, truthy, includes, if◌then◌else◌, map,
}
use go_drive.Api.{Outcome, resolved, rejected, type_error}
use go_drive.Format.{Shown, format_bytes}

pub data Icon : Type 0 where
  plus trash move download history : Icon

unfoldable pub badge_for_action : (String → String) → String → Icon
badge_for_action upper action =
    let u = upper action in
    if includes u "CREATE" || includes u "UPLOAD"
    then plus
    else (if includes u "DELETE" || includes u "PERMANENT" || includes u "TRASH"
        then trash
        else (if includes u "MOVE"
            then move
            else (if includes u "DOWNLOAD" then download else history)))

abbrev pub labels : Dict String
labels =
    ("file_upload", "activity.action.fileUpload")
    ∷ ("file_delete", "activity.action.fileDelete")
    ∷ ("file_delete_batch", "activity.action.fileDeleteBatch")
    ∷ ("file_move", "activity.action.fileMove")
    ∷ ("file_move_batch", "activity.action.fileMoveBatch")
    ∷ ("folder_create", "activity.action.folderCreate")
    ∷ ("folder_delete", "activity.action.folderDelete")
    ∷ ("api_key_create", "activity.action.apiKeyCreate")
    ∷ ("api_key_revoke", "activity.action.apiKeyRevoke")
    ∷ []

-- `labels[action] ?? 'activity.action.unknown'`.
abbrev or_unknown : Option String → String
or_unknown none = "activity.action.unknown"
or_unknown (some l) = l

unfoldable pub action_label_key : String → String
action_label_key action = or_unknown (get labels action)

-- A field of an object: a text, a number, or neither.
pub data Field : Type 0 where
  text : String → Field
  number : ℕ → Field
  other : Field

-- A value of JSON: null, or what has fields; a list or a number has none that the rows read.
pub data Value : Type 0 where
  null : Value
  object : Dict Field → Value

-- The column of a log: the driver gives it as an object or as text.
pub data Metadata : Type 0 where
  no_metadata : Metadata
  raw : String → Metadata
  fields : Dict Field → Metadata

pub data Part : Type 0 where
  name : String → Part
  count : String → Part
  size : Shown → Part
  json : String → Part

-- `typeof value === 'string' && value`.
abbrev name_part : Option Field → List Part
name_part (some (text s)) = if truthy s then name s ∷ [] else []
name_part _ = []

module _ (print : ℕ → String) where
  abbrev count_part : Option Field → List Part
  count_part (some (number n)) = count (print n) ∷ []
  count_part _ = []

  abbrev size_part : Option Field → List Part
  size_part (some (number n)) = size (format_bytes n) ∷ []
  size_part _ = []

  unfoldable pub found_parts : Dict Field → List Part
  found_parts o =
      name_part (get o "name")
      ++ name_part (get o "fileName")
      ++ name_part (get o "folderName")
      ++ count_part (get o "count")
      ++ size_part (get o "size")

  module _ (parse : String → Option Value) (stringify : Dict Field → String) where
    abbrev pub or_json : Dict Field → List Part → List Part
    or_json o [] = json (stringify o) ∷ []
    or_json o (p ∷ ps) = p ∷ ps

    abbrev pub parts_of : String → Option Value → Outcome (List Part)
    parts_of s none = resolved (json s ∷ [])
    parts_of s (some null) = rejected type_error
    parts_of s (some (object o)) = resolved (or_json o (found_parts o))

    -- `metadataParts`, which throws where it reads a field of null.
    unfoldable pub metadata_parts : Metadata → Outcome (List Part)
    metadata_parts no_metadata = resolved []
    metadata_parts (raw s) = if truthy s then parts_of s (parse s) else resolved []
    metadata_parts (fields o) = resolved (or_json o (found_parts o))

pub record AuditLog : Type 0 where
  pub id : String
  pub action : String
  pub metadata : Metadata
  pub created_at : String

-- What a row shows, for its parts.
pub record Row : Type 0 where
  pub icon : Icon
  pub label : String
  pub time : String
  pub parts : List Part

unfoldable pub row_of : (String → String) → (String → String) → AuditLog → List Part → Row
row_of upper date log parts = record {
  icon = badge_for_action upper log.action;
  label = action_label_key log.action;
  time = date log.created_at;
  parts = parts;
}

-- What the page shows of its query.
pub data View : Type 0 where
  skeleton : ℕ → View
  failed empty : View
  trail : List AuditLog → View

abbrev trail_of : List AuditLog → View
trail_of [] = empty
trail_of (l ∷ ls) = trail (l ∷ ls)

abbrev logs_of : Option (List AuditLog) → List AuditLog
logs_of none = []
logs_of (some ls) = ls

unfoldable pub view : Bool → Bool → Option (List AuditLog) → View
view true is_error answer = skeleton 5
view false true answer = failed
view false false answer = trail_of (logs_of answer)
