-- ===== src/Files/DropZone.antt =====
-- The drop target of the page: web/src/pages/app/files/FileDropZone.tsx.
use go_drive.Base.{
  ℕ, ◌+◌, ◌-◌, ◌≡◌, refl, Bool, true, false, Option, none, some, List, [], ◌∷◌, leb, ltb, length,
  if◌then◌else◌, arith, String,
}

-- `dragDepth` and `isDragging`.
pub record Zone : Type 0 where
  pub depth : ℕ
  pub dragging : Bool

abbrev pub resting : Zone
resting = record { depth = 0; dragging = false }

-- What the pointer does over the area.
pub data Drag : Type 0 where
  enter leave : Drag
  drop : List String → Drag

unfoldable handle_drag_enter : Zone → Zone
handle_drag_enter z = record { depth = z.depth + 1; dragging = true }

-- `dragDepth.current -= 1`, then the reset at or below 0. From depth 0 the source counts to -1 and
-- resets, which subtraction that stops at 0 gives too.
unfoldable handle_drag_leave : Zone → Zone
handle_drag_leave z =
    if leb (z.depth - 1) 0
    then record { depth = 0; dragging = false }
    else record z { depth = z.depth - 1 }

-- `handleDrop`, with the files that are handed to `onFiles`, if it is called.
unfoldable handle_drop : List String → Zone → Zone × Option (List String)
handle_drop dropped z =
    (record { depth = 0; dragging = false }, if ltb 0 (length dropped) then some dropped else none)

unfoldable pub handle : Zone → Drag → Zone
unfolding handle_drag_enter handle_drag_leave handle_drop
handle z enter = handle_drag_enter z
handle z leave = handle_drag_leave z
handle z (drop dropped) = (handle_drop dropped z).0

unfoldable pub handle_all : Zone → List Drag → Zone
handle_all z [] = z
handle_all z (d ∷ ds) = handle_all (handle z d) ds

-- How many elements of the area the pointer is inside of, by the events of the browser.
abbrev inside : ℕ → List Drag → ℕ
inside n [] = n
inside n (enter ∷ ds) = inside (n + 1) ds
inside n (leave ∷ ds) = inside (n - 1) ds
inside n (drop fs ∷ ds) = inside 0 ds

-- The overlay is up exactly while the pointer is inside something.
abbrev pub Tracks : Zone → ℕ → Type 0
Tracks z n = (z.depth ≡ n) × (z.dragging ≡ ltb 0 n)

handle_all-Tracks :
    (z : Zone) (n : ℕ) (ds : List Drag) → Tracks z n → Tracks (handle_all z ds) (inside n ds)
unfolding handle_all handle
handle_all-Tracks z n [] h = h
handle_all-Tracks z n (enter ∷ ds) h = handle_all-Tracks (handle z enter) (n + 1) ds (ground arith)
handle_all-Tracks z n (leave ∷ ds) h = handle_all-Tracks (handle z leave) (n - 1) ds (ground arith)
handle_all-Tracks z n (drop fs ∷ ds) h = handle_all-Tracks (handle z (drop fs)) 0 ds (refl, refl)

-- After any events, the depth counts the elements that the pointer is inside of (a drop ends the
-- count, and a leave too many is ignored), and the overlay is shown exactly when that is not 0.
pub handle_all-inside : (ds : List Drag) → Tracks (handle_all resting ds) (inside 0 ds)
handle_all-inside ds = handle_all-Tracks resting 0 ds (refl, refl)
