-- ===== src/Upload/Failure.antt =====
-- A batch of web/src/store/upload.ts that fails as a whole.
use go_drive.Base.{
  ◌≡◌, ◌≢◌, refl, sym, Option, none, List, [], ◌∷◌, map, All, Bool-cases, String, inl, inr, ◌==◌,
  ◌⊎◌, false→ne,
}
use go_drive.Api.{rejected, Failure}
use go_drive.Upload.{
  UploadEntry, failed, Row, Progress, XhrEnd, update, update_all, finish_batch, new_entry,
  upload_batch, set_failed,
}
use go_drive.Upload.Frame.{begin_batch_lem}
use go_drive.Upload.Keep.{progress_all-All}

abbrev InIds : String → List Row → Type 0
InIds id [] = ⊥
InIds id (r ∷ rows) = (r.id ≡ id) ⊎ InIds id rows

abbrev Owed : List Row → UploadEntry → Type 0
Owed rows e = (e.status ≡ failed) ⊎ InIds e.id rows

update-Owed :
    (r : Row) (rows : List Row) (m : Option String) (t : List UploadEntry)
    → All (Owed (r ∷ rows)) t
    → All (Owed rows) (update r.id (set_failed m) t)
unfolding update
update-Owed r rows m [] h = tt
update-Owed r rows m (e ∷ t) h = elim (Bool-cases (e.id == r.id)) [
  | inl same ↦ rw same (inl refl, update-Owed r rows m t h.1)
  | inr other ↦ rw other (rest h.0 (false→ne e.id r.id other), update-Owed r rows m t h.1)
]
  where
    rest : Owed (r ∷ rows) e → e.id ≢ r.id → Owed rows e
    rest (inl p) n = inl p
    rest (inr (inl q)) n = absurd (n (sym q))
    rest (inr (inr i)) n = inr i

update_all-failed :
    (rows : List Row) (m : Option String) (t : List UploadEntry)
    → All (Owed rows) t
    → All (Owed []) (update_all rows (set_failed m) t)
unfolding update_all
update_all-failed [] m t h = h
update_all-failed (r ∷ rows) m t h =
    update_all-failed rows m (update r.id (set_failed m) t) (update-Owed r rows m t h)

more-InIds :
    (r : Row) (rows : List Row) (t : List UploadEntry) → All (Owed rows) t → All (Owed (r ∷ rows)) t
more-InIds r rows [] h = tt
more-InIds r rows (e ∷ t) h = (wider h.0, more-InIds r rows t h.1)
  where
    wider : Owed rows e → Owed (r ∷ rows) e
    wider (inl p) = inl p
    wider (inr i) = inr (inr i)

new-Owed : (rows : List Row) → All (Owed rows) (map new_entry rows)
new-Owed [] = tt
new-Owed (r ∷ rows) = (inr (inl refl), more-InIds r rows (map new_entry rows) (new-Owed rows))

Owed-nil : (t : List UploadEntry) → All (Owed []) t → All (λ e. e.status ≡ failed) t
Owed-nil [] h = tt
Owed-nil (e ∷ t) (inl p, h) = (p, Owed-nil t h)
Owed-nil (e ∷ t) (inr i, h) = absurd i

-- When the request is rejected, for whatever reason and after whatever progress, every row of the
-- batch is marked as failed.
pub upload_batch_rejected :
    (rows : List Row) (events : List Progress) (end : XhrEnd) (e : Failure)
    → (upload_batch rows events end []).1 ≡ rejected e
    → All (λ x. x.status ≡ failed) (upload_batch rows events end []).0
unfolding upload_batch finish_batch
upload_batch_rejected rows events end e h =
    rw (h, begin_batch_lem rows [])
      (Owed-nil _ (
        update_all-failed rows none _ (
          progress_all-All (Owed rows) rows events (map new_entry rows) (λ n x o. o)
            (new-Owed rows))))
