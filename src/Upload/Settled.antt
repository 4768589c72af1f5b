-- ===== src/Upload/Settled.antt =====
-- A batch of web/src/store/upload.ts that the server answers.
use go_drive.Base.{
  ◌≡◌, ◌≢◌, refl, sym, ap, ◌∙◌, none, some, List, [], ◌∷◌, map, All, In, Bool-cases, Option-cases,
  find, find-key, DistinctBy, String, inl, inr, ◌==◌, ◌⊎◌, false→ne,
}
use go_drive.Api.{resolved}
use go_drive.Upload.{
  UploadEntry, UploadStatus, uploading, done, failed, Patch, Row, Progress, XhrEnd, UploadResult,
  UploadedFile, FailedUpload, apply, update, update_named, mark_files, mark_failed, finish_batch,
  new_entry, upload_batch, xhr_result, set_done, set_failed,
}
use go_drive.Upload.Frame.{begin_batch_lem}
use go_drive.Upload.Keep.{progress_all-All}

-- The row of an entry is the first one with its name, so that the answer's names lead to it.
abbrev Owned : List Row → UploadEntry → Type 0
Owned rows e =
    find (λ (r : Row). r.name == e.name) rows ≡ some (record { id = e.id; name = e.name })

-- Settled already, or owed an update by its name.
abbrev Pending : (String → Type 0) → List Row → UploadEntry → Type 0
Pending Q rows e = Owned rows e × ((e.status ≢ uploading) ⊎ Q e.name)

abbrev OrNamed : String → (String → Type 0) → String → Type 0
OrNamed n Q name = (n ≡ name) ⊎ Q name

module _ (Q : String → Type 0) (rows : List Row) (p : Patch) (st : UploadStatus)
    (sets : p.status ≡ some st) (settled : st ≢ uploading) where
  patched : (e : UploadEntry) → (apply p e).status ≢ uploading
  patched e = rw sets settled

  step_Pending :
      (n : String) (r : Row) (t : List UploadEntry)
      → find (λ (q : Row). q.name == n) rows ≡ some r
      → All (Pending (OrNamed n Q) rows) t
      → All (Pending Q rows) (update r.id p t)
  unfolding update
  step_Pending n r [] found h = tt
  step_Pending n r (e ∷ t) found h = elim (Bool-cases (e.id == r.id)) [
    | inl same ↦ rw same ((h.0.0, inl (patched e)), step_Pending n r t found h.1)
    | inr other ↦
        rw other
          ((h.0.0, keep (false→ne e.id r.id other) h.0.0 h.0.1), step_Pending n r t found h.1)
  ]
    where
      clash : e.id ≢ r.id → Owned rows e → n ≡ e.name → ⊥
      clash d own same =
          let twice : some r ≡ some (record { id = e.id; name = e.name }) =
            sym (rw same at found) ∙ own in
          d (sym (ap (λ o. elim o [ none ↦ e.id | some q ↦ q.id ]) twice))

      keep :
          e.id ≢ r.id
          → Owned rows e
          → (e.status ≢ uploading) ⊎ OrNamed n Q e.name
          → (e.status ≢ uploading) ⊎ Q e.name
      keep d own (inl s) = inl s
      keep d own (inr (inl same)) = absurd (clash d own same)
      keep d own (inr (inr q)) = inr q

  update_named-Pending :
      (n : String) (t : List UploadEntry)
      → All (Pending (OrNamed n Q) rows) t
      → All (Pending Q rows) (update_named rows n p t)
  unfolding update_named
  update_named-Pending n t h = elim (Option-cases (find (λ (q : Row). q.name == n) rows)) [
    | inl missing ↦ rw (missing, update_named) (unnamed t missing h)
    | inr (r, found) ↦ rw (found, update_named) (step_Pending n r t found h)
  ]
    where
      narrow :
          (e : UploadEntry)
          → find (λ (q : Row). q.name == n) rows ≡ none
          → Owned rows e
          → (e.status ≢ uploading) ⊎ OrNamed n Q e.name
          → (e.status ≢ uploading) ⊎ Q e.name
      narrow e missing own (inl s) = inl s
      narrow e missing own (inr (inl same)) =
          let nothing : find (λ (q : Row). q.name == e.name) rows ≡ none = rw same at missing in
          absurd (none≢some own nothing)
        where
          none≢some : Owned rows e → find (λ (q : Row). q.name == e.name) rows ≡ none → ⊥
          none≢some a b = cc
      narrow e missing own (inr (inr q)) = inr q

      unnamed :
          (t : List UploadEntry)
          → find (λ (q : Row). q.name == n) rows ≡ none
          → All (Pending (OrNamed n Q) rows) t
          → All (Pending Q rows) t
      unnamed [] missing h = tt
      unnamed (e ∷ t) missing h = ((h.0.0, narrow e missing h.0.0 h.0.1), unnamed t missing h.1)

-- The answer names the file, as uploaded or as failed.
abbrev InFiles : List UploadedFile → (String → Type 0) → String → Type 0
InFiles [] Q name = Q name
InFiles (f ∷ fs) Q name = (f.name ≡ name) ⊎ InFiles fs Q name

abbrev InFailed : List FailedUpload → String → Type 0
InFailed [] name = ⊥
InFailed (f ∷ fs) name = (f.name ≡ name) ⊎ InFailed fs name

abbrev Reported : UploadResult → String → Type 0
Reported res = InFiles res.files (InFailed res.failed)

mark_files-Pending :
    (rows : List Row) (fs : List UploadedFile) (Q : String → Type 0) (t : List UploadEntry)
    → All (Pending (InFiles fs Q) rows) t
    → All (Pending Q rows) (mark_files rows fs t)
unfolding mark_files
mark_files-Pending rows [] Q t h = h
mark_files-Pending rows (f ∷ fs) Q t h =
    mark_files-Pending rows fs Q (update_named rows f.name set_done t)
      (update_named-Pending (InFiles fs Q) rows set_done done refl (λ e. cc) f.name t h)

mark_failed-Pending :
    (rows : List Row) (fs : List FailedUpload) (t : List UploadEntry)
    → All (Pending (InFailed fs) rows) t
    → All (Pending (λ n. ⊥) rows) (mark_failed rows fs t)
unfolding mark_failed
mark_failed-Pending rows [] t h = h
mark_failed-Pending rows (f ∷ fs) t h =
    let patch = set_failed (some f.error) in
    mark_failed-Pending rows fs (update_named rows f.name patch t)
      (update_named-Pending (InFailed fs) rows patch failed refl (λ e. cc) f.name t h)

Pending-nil :
    (rows : List Row) (t : List UploadEntry)
    → All (Pending (λ n. ⊥) rows) t
    → All (λ e. e.status ≢ uploading) t
Pending-nil rows [] h = tt
Pending-nil rows (e ∷ t) ((own, inl s), h) = (s, Pending-nil rows t h)
Pending-nil rows (e ∷ t) ((own, inr i), h) = absurd i

new-Pending :
    (rows all : List Row) (Q : String → Type 0)
    → DistinctBy (λ (r : Row). r.name) all
    → All (λ r. Q r.name) rows
    → All (λ r. In r all) rows
    → All (Pending Q all) (map new_entry rows)
new-Pending [] all Q d h k = tt
new-Pending (r ∷ rows) all Q d h k =
    ((find-key (λ (q : Row). q.name) r all d k.0, inr h.0), new-Pending rows all Q d h.1 k.1)

each-In : (rows : List Row) → All (λ r. In r rows) rows
each-In [] = tt
each-In (r ∷ rows) = (inl refl, later rows (each-In rows))
  where
    later : (qs : List Row) → All (λ q. In q rows) qs → All (λ q. In q (r ∷ rows)) qs
    later [] h = tt
    later (q ∷ qs) h = (inr h.0, later qs h.1)

-- When the files of a batch have different names and the server's answer names each of them, no
-- row of the batch is left as uploading.
pub upload_batch_settled :
    (rows : List Row) (events : List Progress) (end : XhrEnd) (res : UploadResult)
    → DistinctBy (λ (r : Row). r.name) rows
    → xhr_result end ≡ resolved res
    → All (λ r. Reported res r.name) rows
    → All (λ e. e.status ≢ uploading) (upload_batch rows events end []).0
unfolding upload_batch finish_batch
upload_batch_settled rows events end res distinct answered reported =
    rw (answered, begin_batch_lem rows [])
      (Pending-nil rows _ (
        mark_failed-Pending rows res.failed _ (
          mark_files-Pending rows res.files (InFailed res.failed) _ (
            progress_all-All (Pending (Reported res) rows) rows events (map new_entry rows)
              (λ n e h. h)
              (new-Pending rows rows (Reported res) distinct reported (each-In rows))))))
