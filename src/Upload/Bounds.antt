-- ===== src/Upload/Bounds.antt =====
-- The progress that a row of web/src/store/upload.ts shows.
use native.Mathlib.Nat.{div-lt_iff_lt-mul}
use go_drive.Base.{
  ◌≡◌, refl, Option, none, some, arith, List, [], ◌∷◌, map, All, Option-cases, inl, inr, ℕ, ◌≤◌,
  ◌<◌, ◌*◌, ◌+◌, ◌/◌, find, ◌==◌, String,
}
use go_drive.Api.{Outcome, resolved, rejected}
use go_drive.Upload.{
  UploadEntry, uploading, done, Patch, Row, Progress, XhrEnd, UploadResult, UploadedFile,
  FailedUpload, apply, update_named, mark_files, mark_failed, finish_batch, progress, percent_of,
  progress_all, new_entry, upload_batch, xhr_result, set_percent, set_done, set_failed,
}
use go_drive.Upload.Frame.{begin_batch_lem}
use go_drive.Upload.Keep.{update-All, update_all-All}

percent-lt :
    (loaded total : ℕ) → 0 < total → loaded ≤ total → (200 * loaded + total) / (2 * total) < 101
percent-lt loaded total h k =
    (div-lt_iff_lt-mul {k = 2 * total} {x = 200 * loaded + total} {y = 101} (omega arith)).1
      (omega arith)

percent_of-le : (e : Progress) (n : ℕ) → e.loaded ≤ e.total → percent_of e ≡ some n → n ≤ 100
unfolding percent_of
percent_of-le e n k h = ground (arith, percent-lt e.loaded e.total)

-- A browser never reports more bytes as sent than there are.
abbrev IsPlausible : Progress → Type 0
IsPlausible e = e.loaded ≤ e.total

-- A row on its way.
abbrev OnItsWay : UploadEntry → Type 0
OnItsWay e = (e.percent ≤ 100) × (e.status ≡ uploading)

-- A row shows at most 100 percent, and exactly 100 when it is done.
abbrev pub IsSound : UploadEntry → Type 0
IsSound e = (e.percent ≤ 100) × (e.status ≡ done → e.percent ≡ 100)

new-OnItsWay : (rows : List Row) → All OnItsWay (map new_entry rows)
new-OnItsWay [] = tt
new-OnItsWay (r ∷ rows) = ((omega arith, refl), new-OnItsWay rows)

progress_all-OnItsWay :
    (rows : List Row) (es : List Progress) (t : List UploadEntry)
    → All IsPlausible es
    → All OnItsWay t
    → All OnItsWay (progress_all rows es t)
unfolding progress_all progress
progress_all-OnItsWay rows [] t k h = h
progress_all-OnItsWay rows (e ∷ es) t k h = elim (Option-cases (percent_of e)) [
  | inl skipped ↦ progress_all-OnItsWay rows es (progress rows e t) k.1 (rw (skipped, progress) h)
  | inr (n, counted) ↦ progress_all-OnItsWay rows es (progress rows e t) k.1 (
      rw (counted, progress)
        (update_all-All OnItsWay rows (set_percent n) t
          (λ x w. (percent_of-le e n k.0 counted, w.1)) h))
]

OnItsWay-IsSound : (t : List UploadEntry) → All OnItsWay t → All IsSound t
OnItsWay-IsSound [] h = tt
OnItsWay-IsSound (e ∷ t) ((low, here), h) = ((low, λ d. clash d), OnItsWay-IsSound t h)
  where
    clash : e.status ≡ done → e.percent ≡ 100
    clash d = cc

update_named-IsSound :
    (rows : List Row) (n : String) (p : Patch) (t : List UploadEntry)
    → ((e : UploadEntry) → IsSound e → IsSound (apply p e))
    → All IsSound t
    → All IsSound (update_named rows n p t)
unfolding update_named
update_named-IsSound rows n p t k h = elim (Option-cases (find (λ (q : Row). q.name == n) rows)) [
  | inl absent ↦ rw (absent, update_named) h
  | inr (r, found) ↦ rw (found, update_named) (update-All IsSound r.id p t k h)
]

failed-IsSound :
    (m : Option String) (e : UploadEntry) → IsSound e → IsSound (apply (set_failed m) e)
failed-IsSound m e h = (h.0, λ d. cc)

done-IsSound : (e : UploadEntry) → IsSound e → IsSound (apply set_done e)
done-IsSound e h = (omega arith, λ d. refl)

mark_files-IsSound :
    (rows : List Row) (fs : List UploadedFile) (t : List UploadEntry)
    → All IsSound t
    → All IsSound (mark_files rows fs t)
unfolding mark_files
mark_files-IsSound rows [] t h = h
mark_files-IsSound rows (f ∷ fs) t h =
    mark_files-IsSound rows fs _ (update_named-IsSound rows f.name set_done t done-IsSound h)

mark_failed-IsSound :
    (rows : List Row) (fs : List FailedUpload) (t : List UploadEntry)
    → All IsSound t
    → All IsSound (mark_failed rows fs t)
unfolding mark_failed
mark_failed-IsSound rows [] t h = h
mark_failed-IsSound rows (f ∷ fs) t h = mark_failed-IsSound rows fs _ (
    update_named-IsSound rows f.name (set_failed (some f.error)) t (failed-IsSound (some f.error))
      h)

finish_batch-IsSound :
    (rows : List Row) (r : Outcome UploadResult) (t : List UploadEntry)
    → All IsSound t
    → All IsSound (finish_batch rows r t)
unfolding finish_batch
finish_batch-IsSound rows (resolved res) t h =
    mark_failed-IsSound rows res.failed _ (mark_files-IsSound rows res.files t h)
finish_batch-IsSound rows (rejected e) t h =
    update_all-All IsSound rows (set_failed none) t (failed-IsSound none) h

-- Whatever the progress events and the answer, the rows of a batch show at most 100 percent, and
-- exactly 100 where they are done, provided that no event reports more bytes than there are.
pub upload_batch-IsSound :
    (rows : List Row) (events : List Progress) (end : XhrEnd)
    → All IsPlausible events
    → All IsSound (upload_batch rows events end []).0
unfolding upload_batch
upload_batch-IsSound rows events end plausible = rw (begin_batch_lem rows []) (
    finish_batch-IsSound rows (xhr_result end) _
      (OnItsWay-IsSound _ (progress_all-OnItsWay rows events _ plausible (new-OnItsWay rows))))
