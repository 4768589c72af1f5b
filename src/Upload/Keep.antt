-- ===== src/Upload/Keep.antt =====
-- Progress events and updates of single rows in web/src/store/upload.ts.
use go_drive.Base.{List, [], ◌∷◌, All, Bool-cases, Option-cases, String, inl, inr, ◌==◌, ℕ}
use go_drive.Upload.{
  UploadEntry, Patch, Row, Progress, apply, update, update_all, progress, percent_of, progress_all,
  set_percent,
}

-- What holds of every entry and is kept by a patch holds after an update.
module _ (P : UploadEntry → Type 0) where
  pub update-All :
      (id : String) (p : Patch) (t : List UploadEntry)
      → ((e : UploadEntry) → P e → P (apply p e))
      → All P t
      → All P (update id p t)
  unfolding update
  update-All id p [] k h = tt
  update-All id p (e ∷ t) k h = elim (Bool-cases (e.id == id)) [
    | inl same ↦ rw same (k e h.0, update-All id p t k h.1)
    | inr other ↦ rw other (h.0, update-All id p t k h.1)
  ]

  pub update_all-All :
      (rows : List Row) (p : Patch) (t : List UploadEntry)
      → ((e : UploadEntry) → P e → P (apply p e))
      → All P t
      → All P (update_all rows p t)
  unfolding update_all
  update_all-All [] p t k h = h
  update_all-All (r ∷ rows) p t k h =
      update_all-All rows p (update r.id p t) k (update-All r.id p t k h)

  pub progress_all-All :
      (rows : List Row) (es : List Progress) (t : List UploadEntry)
      → ((n : ℕ) (e : UploadEntry) → P e → P (apply (set_percent n) e))
      → All P t
      → All P (progress_all rows es t)
  unfolding progress_all progress
  progress_all-All rows [] t k h = h
  progress_all-All rows (e ∷ es) t k h = elim (Option-cases (percent_of e)) [
    | inl skipped ↦ progress_all-All rows es (progress rows e t) k (rw (skipped, progress) h)
    | inr (n, counted) ↦
        progress_all-All rows es (progress rows e t) k
          (rw (counted, progress) (update_all-All rows (set_percent n) t (k n) h))
  ]
