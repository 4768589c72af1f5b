-- ===== src/Upload/Shadowed.antt =====
-- Files of one name in a batch of web/src/store/upload.ts.
use go_drive.Base.{
  if◌then◌else◌, ◌≡◌, ◌≢◌, refl, sym, ap, ◌∙◌, Option, none, some, List, [], ◌∷◌, map, In,
  Bool-cases, Option-cases, eq_iff, eq_refl, find, find-In, find_passes, key-injective, DistinctBy,
  String, inl, inr, false, ◌==◌, ne→false, ℕ, if◌then◌else◌,
}
use go_drive.Api.{resolved}
use go_drive.Upload.{
  UploadEntry, UploadStatus, uploading, Patch, Row, Progress, XhrEnd, UploadResult, UploadedFile,
  FailedUpload, update, update_all, update_named, mark_files, mark_failed, finish_batch, progress,
  percent_of, progress_all, new_entry, upload_batch, xhr_result, set_percent, set_done, set_failed,
}
use go_drive.Upload.Frame.{begin_batch_lem}

-- The status of the first entry with an identifier.
abbrev pub status_of : String → List UploadEntry → Option UploadStatus
status_of id [] = none
status_of id (e ∷ t) = if e.id == id then some e.status else status_of id t

update-status_of :
    (id other : String) (p : Patch) (t : List UploadEntry)
    → other ≢ id
    → status_of id (update other p t) ≡ status_of id t
unfolding update
update-status_of id other p [] d = refl
update-status_of id other p (e ∷ t) d = elim (Bool-cases (e.id == other)) [
  | inl hit ↦
      let e_other : e.id ≡ other = (eq_iff e.id other).0 hit in
      let misses : (e.id == id) ≡ false = ne→false e.id id (λ q. d (sym e_other ∙ q)) in
      rw hit (rw misses (update-status_of id other p t d))
  | inr miss ↦
      rw miss (ap (λ s. if e.id == id then some e.status else s) (update-status_of id other p t d))
]

-- Names lead to other rows than that of the identifier.
abbrev Missed : List Row → String → Type 0
Missed rows id = (n : String) (r : Row) → find (λ (q : Row). q.name == n) rows ≡ some r → r.id ≢ id

module _ (rows : List Row) (id : String) (missed : Missed rows id) where
  update_named-status_of :
      (n : String) (p : Patch) (t : List UploadEntry)
      → status_of id (update_named rows n p t) ≡ status_of id t
  unfolding update_named
  update_named-status_of n p t = elim (Option-cases (find (λ (q : Row). q.name == n) rows)) [
    | inl absent ↦ rw (absent, update_named)
    | inr (r, found) ↦ rw (found, update_named) (update-status_of id r.id p t (missed n r found))
  ]

  mark_files-status_of :
      (fs : List UploadedFile) (t : List UploadEntry)
      → status_of id (mark_files rows fs t) ≡ status_of id t
  unfolding mark_files
  mark_files-status_of [] t = refl
  mark_files-status_of (f ∷ fs) t =
      mark_files-status_of fs _ ∙ update_named-status_of f.name set_done t

  mark_failed-status_of :
      (fs : List FailedUpload) (t : List UploadEntry)
      → status_of id (mark_failed rows fs t) ≡ status_of id t
  unfolding mark_failed
  mark_failed-status_of [] t = refl
  mark_failed-status_of (f ∷ fs) t =
      mark_failed-status_of fs _ ∙ update_named-status_of f.name (set_failed (some f.error)) t

-- The row is not the one that the search for its name finds.
abbrev IsShadowed : List Row → Row → Type 0
IsShadowed rows r = (q : Row) × (find (λ (x : Row). x.name == r.name) rows ≡ some q) × (q.id ≢ r.id)

shadowed-Missed :
    (rows : List Row) (r : Row)
    → DistinctBy (λ (q : Row). q.id) rows
    → In r rows
    → IsShadowed rows r
    → Missed rows r.id
shadowed-Missed rows r d i (q, first, differs) n s found same =
    let s-is-r : s ≡ r =
      key-injective (λ (x : Row). x.id) s r rows d (find-In _ rows s found) i same in
    let named : s.name ≡ n =
      (eq_iff s.name n).0 (find_passes (λ (x : Row). x.name == n) rows found) in
    let n-is : n ≡ r.name = sym named ∙ ap (λ x. x.name) s-is-r in
    differs (ap (λ x. x.id) (second (rw n-is at found) ∙ s-is-r))
  where
    second : find (λ (x : Row). x.name == r.name) rows ≡ some s → q ≡ s
    second f = cc

percent-status_of :
    (id other : String) (n : ℕ) (t : List UploadEntry)
    → status_of id (update other (set_percent n) t) ≡ status_of id t
unfolding update
percent-status_of id other n [] = refl
percent-status_of id other n (e ∷ t) = elim (Bool-cases (e.id == other)) [
  | inl hit ↦
      rw hit (ap (λ s. if e.id == id then some e.status else s) (percent-status_of id other n t))
  | inr miss ↦
      rw miss (ap (λ s. if e.id == id then some e.status else s) (percent-status_of id other n t))
]

percents-status_of :
    (id : String) (rows : List Row) (n : ℕ) (t : List UploadEntry)
    → status_of id (update_all rows (set_percent n) t) ≡ status_of id t
unfolding update_all
percents-status_of id [] n t = refl
percents-status_of id (r ∷ rows) n t =
    percents-status_of id rows n (update r.id (set_percent n) t) ∙ percent-status_of id r.id n t

progress_all-status_of :
    (id : String) (rows : List Row) (es : List Progress) (t : List UploadEntry)
    → status_of id (progress_all rows es t) ≡ status_of id t
unfolding progress_all progress
progress_all-status_of id rows [] t = refl
progress_all-status_of id rows (e ∷ es) t = elim (Option-cases (percent_of e)) [
  | inl skipped ↦
      progress_all-status_of id rows es (progress rows e t) ∙ rw (skipped, progress) refl
  | inr (n, counted) ↦
      progress_all-status_of id rows es (progress rows e t)
      ∙ rw (counted, progress) (percents-status_of id rows n t)
]

new-status_of :
    (r : Row) (rows : List Row) → In r rows → status_of r.id (map new_entry rows) ≡ some uploading
new-status_of r [] i = absurd i
new-status_of r (q ∷ rows) (inl e) = rw e (rw (eq_refl r.id))
new-status_of r (q ∷ rows) (inr i) = elim (Bool-cases (q.id == r.id)) [
  | inl same ↦ rw same
  | inr other ↦ rw other (new-status_of r rows i)
]

-- Of several files with one name in a batch, only the first is found by it: if the server answers with
-- success, whatever files and failures its answer lists, the row of every later one stays as
-- uploading. The rows' identifiers are taken to differ.
pub upload_batch_shadowed :
    (rows : List Row) (r : Row) (events : List Progress) (end : XhrEnd) (res : UploadResult)
    → DistinctBy (λ (q : Row). q.id) rows
    → In r rows
    → IsShadowed rows r
    → xhr_result end ≡ resolved res
    → status_of r.id (upload_batch rows events end []).0 ≡ some uploading
unfolding upload_batch finish_batch
upload_batch_shadowed rows r events end res distinct listed shadowed answered =
    let missed = shadowed-Missed rows r distinct listed shadowed in
    rw (answered, begin_batch_lem rows [])
      (mark_failed-status_of rows r.id missed res.failed _
        ∙ mark_files-status_of rows r.id missed res.files _
        ∙ progress_all-status_of r.id rows events _
        ∙ new-status_of r rows listed)
