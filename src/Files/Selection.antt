-- ===== src/Files/Selection.antt =====
-- The selection of the select-multiple mode of web/src/pages/app/files/batchOps.ts.
use go_drive.Base.{
  ◌≡◌, refl, ◌∙◌, arith, List, [], ◌∷◌, ◌++◌, Bool-cases, eq_iff, filter, String, inl, inr, true,
  false, not, ◌&&◌, ◌||◌, ◌==◌, if◌then◌else◌,
}
use go_drive.Api.{resolved}
use go_drive.Files.Batch.{
  initial, BatchState, includes, toggle, toggle_select_mode, toggle_select, clear_selection,
  set_move_open, set_move_folder_id, set_delete_open, BatchRequest, move_files, delete_files,
  on_success, settled, Action, tick, answered, act, acts,
}

-- No file is selected twice.
abbrev IsSelection : List String → Type 0
IsSelection [] = Unit
IsSelection (id ∷ ids) = (includes id ids ≡ false) × IsSelection ids

includes-append :
    (id j : String) (ids : List String)
    → includes j (ids ++ id ∷ []) ≡ (includes j ids || (id == j))
includes-append id j [] = ground arith
includes-append id j (i ∷ ids) = ground (arith, includes-append id j ids)

includes-filter :
    (id j : String) (ids : List String)
    → includes j (filter (λ i. not (i == id)) ids) ≡ (includes j ids && not (id == j))
includes-filter id j [] = refl
includes-filter id j (i ∷ ids) =
    ground (arith, includes-filter id j ids, eq_iff i id, eq_iff i j, eq_iff id j)

-- Ticking a file changes whether that file is selected, and that of no other.
pub includes-toggle :
    (id j : String) (ids : List String)
    → includes j (toggle id ids) ≡ (if id == j then not (includes j ids) else includes j ids)
unfolding toggle
includes-toggle id j ids = elim (Bool-cases (includes id ids)) [
  | inl there ↦ rw there (includes-filter id j ids ∙ removed there)
  | inr absent ↦ rw absent (includes-append id j ids ∙ added absent)
]
  where
    removed :
        includes id ids ≡ true
        → (includes j ids && not (id == j))
          ≡ (if id == j then not (includes j ids) else includes j ids)
    removed there = elim (Bool-cases (id == j)) [
      | inl same ↦
          let here : includes j ids ≡ true = rw ((eq_iff id j).0 same) at there in rw (same, here)
      | inr other ↦ rw other (ground arith)
    ]

    added :
        includes id ids ≡ false
        → (includes j ids || (id == j)) ≡ (if id == j then not (includes j ids) else includes j ids)
    added absent = elim (Bool-cases (id == j)) [
      | inl same ↦
          let here : includes j ids ≡ false = rw ((eq_iff id j).0 same) at absent in rw (same, here)
      | inr other ↦ rw other (ground arith)
    ]

append-IsSelection :
    (id : String) (ids : List String)
    → includes id ids ≡ false
    → IsSelection ids
    → IsSelection (ids ++ id ∷ [])
append-IsSelection id [] n h = (refl, tt)
append-IsSelection id (i ∷ ids) n h = (
  includes-append id i ids ∙ ground (arith, h.0, n, eq_iff i id, eq_iff id i),
  append-IsSelection id ids (ground (arith, n)) h.1,
)

filter-IsSelection :
    (id : String) (ids : List String)
    → IsSelection ids
    → IsSelection (filter (λ i. not (i == id)) ids)
filter-IsSelection id [] h = tt
filter-IsSelection id (i ∷ ids) h = elim (Bool-cases (i == id)) [
  | inl same ↦ rw same (filter-IsSelection id ids h.1)
  | inr other ↦
      rw other (includes-filter id i ids ∙ ground (arith, h.0), filter-IsSelection id ids h.1)
]

toggle-IsSelection :
    (id : String) (ids : List String) → IsSelection ids → IsSelection (toggle id ids)
unfolding toggle
toggle-IsSelection id ids h = elim (Bool-cases (includes id ids)) [
  | inl there ↦ rw there (filter-IsSelection id ids h)
  | inr absent ↦ rw absent (append-IsSelection id ids absent h)
]

pub record IsValid (s : BatchState) : Type 0 where
  pub selection : IsSelection s.selected_ids
  pub only_in_mode : s.select_mode ≡ false → s.selected_ids ≡ []

tick-IsValid : (s : BatchState) (id : String) → IsValid s → IsValid (act s (tick id))
unfolding act toggle_select
tick-IsValid s id h = elim (Bool-cases s.select_mode) [
  | inl mode ↦ rw mode (record {
    selection = toggle-IsSelection id s.selected_ids h.selection;
    only_in_mode = λ e. cc;
  })
  | inr off ↦ simp off h
]

on_success-IsValid : (req : BatchRequest) (s : BatchState) → IsValid (on_success req s)
unfolding on_success
on_success-IsValid (move_files ids folder) s = record { selection = tt; only_in_mode = λ e. refl }
on_success-IsValid (delete_files ids) s = record { selection = tt; only_in_mode = λ e. refl }

pub act-IsValid : (s : BatchState) (a : Action) → IsValid s → IsValid (act s a)
unfolding act toggle_select_mode clear_selection set_move_open set_move_folder_id set_delete_open
    settled
act-IsValid s (tick id) h = tick-IsValid s id h
act-IsValid s (answered req (resolved d)) h = on_success-IsValid req s
act-IsValid s _ h = ground arith

acts-IsValid : (s : BatchState) (as' : List Action) → IsValid s → IsValid (acts s as')
unfolding acts
acts-IsValid s [] h = h
acts-IsValid s (a ∷ as') h = acts-IsValid (act s a) as' (act-IsValid s a h)

pub initial-IsValid : (as' : List Action) → IsValid (acts initial as')
initial-IsValid as' = acts-IsValid initial as' (record { selection = tt; only_in_mode = λ e. refl })
