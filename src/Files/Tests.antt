-- ===== src/Files/Tests.antt =====
-- Concrete visits of the files page.
use go_drive.Base.{
  true, false, none, some, List, [], ◌∷◌, ◌≡◌, refl, is_blank, trim, trim_start, trim_end, false→ne,
  String, arith, Bool, ◌≤◌, length, ltb, map, All, In, ◌↔◌,
}
use go_drive.Files.Content.{Query, FilesData, failed, content, asked_folders, asked_files}
use go_drive.Files.Navigated.{is_folder, navigated_lem}
use go_drive.Files.Batch as Batch
use go_drive.Files.Cache.{
  reaches, invalidate, invalidate_batch, files_key, folders_key, usage_key, search_key,
  search_not_invalidated,
}
use go_drive.Files.Matching.{begins, begins_iff}
use go_drive.Files.Folders as Folders
use go_drive.Files.Folders.{lines}
use go_drive.Files.Folders.Rows.{IsLine, lines_iff}
use go_drive.Files.List.{File, Folder, entries}
use go_drive.Files.Views.{core, has_details, entries_lem}
use go_drive.Files.DropZone.{Drag, enter, leave, resting, handle_all, Tracks, handle_all-inside}
use go_drive.Files.Search.{SearchFilters}
use go_drive.Files.Page.{Item, PageState, grid, list, open_page, handle_nav}
use go_drive.Files.Requests.{
  rename, rename_item, enabled, pressed, Action, navigate_to, rename_of, type_rename, choose_view,
  batch_action, act, acts,
}
use go_drive.Files.Visit.{IsKept, open_page-IsKept}

abbrev ticks : List Batch.Action
ticks = Batch.press_select_mode ∷ Batch.tick "f1" ∷ Batch.tick "f2" ∷ Batch.tick "f1" ∷ []

ticked : (Batch.acts Batch.initial ticks).selected_ids ≡ "f2" ∷ []
unfolding Batch.acts Batch.act Batch.toggle_select_mode Batch.toggle_select Batch.toggle
ticked = refl

abbrev drags : List Drag
drags = enter ∷ enter ∷ leave ∷ []

handle_all-inside_example : Tracks (handle_all resting drags) 1
handle_all-inside_example = handle_all-inside drags

abbrev images : SearchFilters
images = record {
  kind = some "image/";
  min_size = none;
  max_size = some "";
  from = none;
  to = none;
}

abbrev report : Item
report = record { id = "f1"; name = "report.pdf"; is_folder = false; file_id = some "f1" }

abbrev searching : PageState
searching =
    open_page (("q", "report") ∷ ("tab", "1") ∷ []) (some "grid") (Batch.acts Batch.initial ticks)

abbrev renaming : PageState
renaming = acts (open_page [] none Batch.initial) (rename_of report ∷ type_rename " final " ∷ [])

rename_allowed : enabled rename false renaming ≡ true
unfolding enabled acts act is_blank
rename_allowed = refl

rename_sent : pressed rename renaming ≡ some (rename_item report "final")
unfolding pressed acts act trim trim_start trim_end is_blank
rename_sent = refl

abbrev visit : List Action
visit =
    choose_view grid
    ∷ batch_action Batch.press_select_mode
    ∷ batch_action (Batch.tick "f1")
    ∷ navigate_to none
    ∷ []

open_page-IsKept_example : IsKept (acts (open_page [] none Batch.initial) visit)
open_page-IsKept_example = open_page-IsKept [] none visit

search_not_invalidated_example :
    (reaches begins (invalidate "acme" none) (files_key "acme" none) ≡ true)
    × (reaches begins (invalidate "acme" none) (folders_key "acme" none) ≡ true)
    × (reaches begins (invalidate "acme" none) (usage_key "acme") ≡ true)
    × (reaches begins (invalidate_batch "acme") (files_key "acme" (some "d1")) ≡ true)
    × (reaches begins (invalidate_batch "acme") (folders_key "acme" (some "d1")) ≡ true)
    × (reaches begins (invalidate "acme" none) (search_key "acme" "cat" images) ≡ false)
    × (reaches begins (invalidate_batch "acme") (search_key "acme" "cat" images) ≡ false)
search_not_invalidated_example =
    search_not_invalidated begins begins_iff "acme" none (some "d1") "cat" images
      (false→ne "acme" "search" refl)

-- A folder that contains itself, of which the first two rows are expanded.
abbrev inbox : Folders.Folder
inbox = record { id = "d1"; name = "inbox" }

abbrev shallow : List String → Bool
shallow path = ltb (length path) 3

shut : (path : List String) → 3 ≤ length path → shallow path ≡ false
shut path h = ground (arith, h)

lines_iff_example :
    In
      (Folders.folder ("d1" ∷ "d1" ∷ []) "inbox" true true)
      (lines shallow (λ id. some (inbox ∷ [])) "d1" 3 [] (inbox ∷ []))
    ↔ IsLine shallow
        (λ id. some (inbox ∷ []))
        "d1"
        []
        (inbox ∷ [])
        (Folders.folder ("d1" ∷ "d1" ∷ []) "inbox" true true)
lines_iff_example =
    lines_iff shallow (λ id. some (inbox ∷ [])) "d1" 3 shut 2 (inbox ∷ [])
      (Folders.folder ("d1" ∷ "d1" ∷ []) "inbox" true true) (omega arith)

abbrev photo : File
photo = record { id = "f1"; name = "photo.png"; size = 2048 }

abbrev docs : Folder
docs = record { id = "d1"; name = "docs"; color = "" }

entries_lem_example :
    (map core (entries [] Batch.initial grid (docs ∷ []) (photo ∷ []))
      ≡ map core (entries [] Batch.initial list (docs ∷ []) (photo ∷ [])))
    × All (λ e. has_details true e ≡ true) (entries [] Batch.initial list (docs ∷ []) (photo ∷ []))
    × All (λ e. has_details true e ≡ false) (entries [] Batch.initial grid (docs ∷ []) (photo ∷ []))
entries_lem_example = entries_lem [] Batch.initial true (docs ∷ []) (photo ∷ [])

abbrev no_folders : Query (List Folder)
no_folders = record { status = failed; data_of = none }

abbrev no_files : Query FilesData
no_files = record { status = failed; data_of = none }

abbrev at_inbox : PageState
at_inbox = open_page (("folder", "d1") ∷ []) none Batch.initial

navigated_lem_example :
    (is_folder (content (handle_nav none searching) no_folders no_files no_files) ≡ true)
    × ((asked_folders (handle_nav none searching)).params ≡ [])
    × ((asked_files (handle_nav none searching)).params ≡ [])
navigated_lem_example = navigated_lem none searching no_folders no_files no_files
