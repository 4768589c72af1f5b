-- ===== src/Upload/Frame.antt =====
-- The rows of other batches during `uploadBatch` of web/src/store/upload.ts.
use go_drive.Base.{
  ◌≡◌, ◌≢◌, refl, sym, ◌∙◌, none, some, List, [], ◌∷◌, ◌++◌, map, All, In, Bool-cases, Option-cases,
  eq_iff, find, find-In, String, inl, inr, ◌==◌,
}
use mathlib.Core.Path.{ap₂}
use mathlib.Core.List.{append_assoc, append-nil}
use go_drive.Api.{Outcome, resolved, rejected}
use go_drive.Upload.{
  UploadEntry, Patch, Row, Progress, XhrEnd, UploadResult, UploadedFile, FailedUpload, patch_one,
  update, update_all, update_named, mark_files, mark_failed, finish_batch, progress, percent_of,
  progress_all, begin_batch, new_entry, add, upload_batch, xhr_result, set_percent, set_done,
  set_failed,
}

-- No entry has an identifier of the batch.
abbrev Avoids : List UploadEntry → List Row → Type 0
Avoids entries rows = All (λ r. All (λ e. e.id ≢ r.id) entries) rows

patch_one_other : (id : String) (p : Patch) (e : UploadEntry) → e.id ≢ id → patch_one id p e ≡ e
patch_one_other id p e h = elim (Bool-cases (e.id == id)) [
  | inl same ↦ absurd (h ((eq_iff e.id id).0 same))
  | inr other ↦ rw other
]

update-append :
    (id : String) (p : Patch) (s t : List UploadEntry)
    → All (λ e. e.id ≢ id) s
    → update id p (s ++ t) ≡ s ++ update id p t
unfolding update
update-append id p [] t h = refl
update-append id p (e ∷ s) t h = ap₂ ◌∷◌ (patch_one_other id p e h.0) (update-append id p s t h.1)

update_all-append :
    (rows : List Row) (p : Patch) (s t : List UploadEntry)
    → Avoids s rows
    → update_all rows p (s ++ t) ≡ s ++ update_all rows p t
unfolding update_all
update_all-append [] p s t h = refl
update_all-append (r ∷ rows) p s t h =
    rw (update-append r.id p s t h.0) (update_all-append rows p s (update r.id p t) h.1)

progress-append :
    (rows : List Row) (e : Progress) (s t : List UploadEntry)
    → Avoids s rows
    → progress rows e (s ++ t) ≡ s ++ progress rows e t
unfolding progress
progress-append rows e s t h = elim (Option-cases (percent_of e)) [
  | inl skipped ↦ rw (skipped, progress)
  | inr (n, counted) ↦ rw (counted, progress) (update_all-append rows (set_percent n) s t h)
]

Avoids-In :
    (s : List UploadEntry) (r : Row) (rows : List Row)
    → Avoids s rows
    → In r rows
    → All (λ e. e.id ≢ r.id) s
Avoids-In s r [] h i = absurd i
Avoids-In s r (q ∷ rows) h (inl e) = rw e at (h.0)
Avoids-In s r (q ∷ rows) h (inr i) = Avoids-In s r rows h.1 i

update_named-append :
    (rows : List Row) (name : String) (p : Patch) (s t : List UploadEntry)
    → Avoids s rows
    → update_named rows name p (s ++ t) ≡ s ++ update_named rows name p t
unfolding update_named
update_named-append rows name p s t h =
    elim (Option-cases (find (λ (r : Row). r.name == name) rows)) [
      | inl missing ↦ rw (missing, update_named)
      | inr (r, found) ↦
          rw (found, update_named)
            (update-append r.id p s t (Avoids-In s r rows h (find-In _ rows r found)))
    ]

mark_files-append :
    (rows : List Row) (fs : List UploadedFile) (s t : List UploadEntry)
    → Avoids s rows
    → mark_files rows fs (s ++ t) ≡ s ++ mark_files rows fs t
unfolding mark_files
mark_files-append rows [] s t h = refl
mark_files-append rows (f ∷ fs) s t h =
    rw (update_named-append rows f.name set_done s t h) (mark_files-append rows fs s _ h)

mark_failed-append :
    (rows : List Row) (fs : List FailedUpload) (s t : List UploadEntry)
    → Avoids s rows
    → mark_failed rows fs (s ++ t) ≡ s ++ mark_failed rows fs t
unfolding mark_failed
mark_failed-append rows [] s t h = refl
mark_failed-append rows (f ∷ fs) s t h =
    rw (update_named-append rows f.name (set_failed (some f.error)) s t h)
      (mark_failed-append rows fs s _ h)

finish_batch-append :
    (rows : List Row) (r : Outcome UploadResult) (s t : List UploadEntry)
    → Avoids s rows
    → finish_batch rows r (s ++ t) ≡ s ++ finish_batch rows r t
unfolding finish_batch
finish_batch-append rows (resolved res) s t h =
    rw (mark_files-append rows res.files s t h) (mark_failed-append rows res.failed s _ h)
finish_batch-append rows (rejected e) s t h = update_all-append rows (set_failed none) s t h

progress_all-append :
    (rows : List Row) (es : List Progress) (s t : List UploadEntry)
    → Avoids s rows
    → progress_all rows es (s ++ t) ≡ s ++ progress_all rows es t
unfolding progress_all
progress_all-append rows [] s t h = refl
progress_all-append rows (e ∷ es) s t h =
    rw (progress-append rows e s t h) (progress_all-append rows es s _ h)

-- The rows of a new batch stand at the end, in the order of the files.
pub begin_batch_lem :
    (rows : List Row) (s : List UploadEntry) → begin_batch rows s ≡ s ++ map new_entry rows
unfolding begin_batch add
begin_batch_lem [] s = sym (append-nil s)
begin_batch_lem (r ∷ rows) s =
    begin_batch_lem rows (s ++ new_entry r ∷ [])
    ∙ append_assoc s (new_entry r ∷ []) (map new_entry rows)

-- A batch with fresh identifiers leaves the entries of other batches as they are, and its own
-- entries come after them, as in a store that was empty before.
pub upload_batch-append :
    (rows : List Row) (events : List Progress) (end : XhrEnd) (s : List UploadEntry)
    → Avoids s rows
    → (upload_batch rows events end s).0 ≡ s ++ (upload_batch rows events end []).0
unfolding upload_batch
upload_batch-append rows events end s h =
    rw (begin_batch_lem rows s, begin_batch_lem rows [], progress_all-append rows events s _ h)
      (finish_batch-append rows (xhr_result end) s _ h)
