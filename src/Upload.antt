-- ===== src/Upload.antt =====
-- Multi-file uploads: the request of web/src/lib/upload.ts and the progress rows of
-- web/src/store/upload.ts. A batch is three phases, so that other actions can come between them.
pub mod Frame
pub mod Keep
pub mod Failure
pub mod Settled
pub mod Shadowed
pub mod Bounds
pub mod Panel
mod Tests
use go_drive.Base.{
  ℕ, ◌+◌, ◌*◌, ◌/◌, String, Bool, true, false, not, ◌&&◌, Option, none, some, List, [], ◌∷◌, ◌++◌,
  map, filter, find, ltb, ◌==◌, if◌then◌else◌,
}
use go_drive.Api.{
  Body, malformed, null_body, object, error, Outcome, resolved, rejected, is_ok, request_failed,
  message_or_default,
}

pub data UploadStatus : Type 0 where
  uploading done failed : UploadStatus

pub record UploadEntry : Type 0 where
  pub id : String
  pub name : String
  pub percent : ℕ
  pub status : UploadStatus
  pub message : Option String

-- `Partial<Omit<UploadEntry, 'id'>>`, of which the program gives these three.
pub record Patch : Type 0 where
  pub percent : Option ℕ
  pub status : Option UploadStatus
  pub message : Option String

abbrev or_old {ℓ} : {A : Type ℓ} → Option A → A → A
or_old none old = old
or_old (some a) old = a

abbrev or_kept {ℓ} : {A : Type ℓ} → Option A → Option A → Option A
or_kept none old = old
or_kept (some a) old = some a

-- `{ ...e, ...patch }`.
abbrev pub apply : Patch → UploadEntry → UploadEntry
apply p e = record e {
  percent = or_old p.percent e.percent;
  status = or_old p.status e.status;
  message = or_kept p.message e.message;
}

abbrev pub set_percent : ℕ → Patch
set_percent n = record { percent = some n; status = none; message = none }

abbrev pub set_done : Patch
set_done = record { percent = some 100; status = some done; message = none }

abbrev pub set_failed : Option String → Patch
set_failed message = record { percent = none; status = some failed; message = message }

unfoldable pub add : UploadEntry → List UploadEntry → List UploadEntry
add e entries = entries ++ e ∷ []

abbrev pub patch_one : String → Patch → UploadEntry → UploadEntry
patch_one id p e = if e.id == id then apply p e else e

unfoldable pub update : String → Patch → List UploadEntry → List UploadEntry
update id p entries = map (patch_one id p) entries

unfoldable remove : String → List UploadEntry → List UploadEntry
remove id entries = filter (λ e. not (e.id == id)) entries

unfoldable clear : List UploadEntry → List UploadEntry
clear entries = []

pub record UploadedFile : Type 0 where
  pub name : String
  pub id : String
  pub size : ℕ

pub record FailedUpload : Type 0 where
  pub name : String
  pub error : String

pub record UploadResult : Type 0 where
  pub files : List UploadedFile
  pub failed : List FailedUpload

-- A progress event of the request.
pub record Progress : Type 0 where
  pub length_computable : Bool
  pub loaded : ℕ
  pub total : ℕ

-- `Math.round((loaded / total) * 100)`, for the events that count.
unfoldable pub percent_of : Progress → Option ℕ
percent_of e =
    if e.length_computable && ltb 0 e.total
    then some ((200 * e.loaded + e.total) / (2 * e.total))
    else none

-- How the request ends: its `load` event, or its `error` event.
pub data XhrEnd : Type 0 where
  load : ℕ → Body UploadResult → XhrEnd
  network_failure : XhrEnd

unfoldable pub load_result : Bool → Body UploadResult → Outcome UploadResult
load_result good malformed = rejected (error request_failed)
load_result good null_body = rejected (error request_failed)
load_result good (object m none) = rejected (error (message_or_default m))
load_result true (object m (some r)) = resolved r
load_result false (object m (some r)) = rejected (error (message_or_default m))

unfoldable pub xhr_result : XhrEnd → Outcome UploadResult
unfolding load_result
xhr_result (load status body) = load_result (is_ok status) body
xhr_result network_failure = rejected (error request_failed)

-- The rows of a batch: the identifier that `crypto.randomUUID` gave, and the file's name.
pub record Row : Type 0 where
  pub id : String
  pub name : String

abbrev pub new_entry : Row → UploadEntry
new_entry r = record { id = r.id; name = r.name; percent = 0; status = uploading; message = none }

unfoldable pub begin_batch : List Row → List UploadEntry → List UploadEntry
unfolding add
begin_batch [] entries = entries
begin_batch (r ∷ rows) entries = begin_batch rows (add (new_entry r) entries)

-- `ids.forEach(({ id }) => update(id, patch))`.
unfoldable pub update_all : List Row → Patch → List UploadEntry → List UploadEntry
unfolding update
update_all [] p entries = entries
update_all (r ∷ rows) p entries = update_all rows p (update r.id p entries)

-- The callback `onProgress`.
unfoldable pub progress : List Row → Progress → List UploadEntry → List UploadEntry
unfolding percent_of update_all
progress rows e entries = elim (percent_of e) [
  | none ↦ entries
  | some n ↦ update_all rows (set_percent n) entries
]

-- `ids.find((u) => u.name === name)`, and the update of its entry if there is one.
unfoldable pub update_named : List Row → String → Patch → List UploadEntry → List UploadEntry
unfolding update
update_named rows name p entries = elim (find (λ (r : Row). r.name == name) rows) [
  | none ↦ entries
  | some r ↦ update r.id p entries
]

unfoldable pub mark_files : List Row → List UploadedFile → List UploadEntry → List UploadEntry
unfolding update_named
mark_files rows [] entries = entries
mark_files rows (f ∷ fs) entries = mark_files rows fs (update_named rows f.name set_done entries)

unfoldable pub mark_failed : List Row → List FailedUpload → List UploadEntry → List UploadEntry
unfolding update_named
mark_failed rows [] entries = entries
mark_failed rows (f ∷ fs) entries =
    mark_failed rows fs (update_named rows f.name (set_failed (some f.error)) entries)

-- What follows the request, in `try` and in `catch`.
unfoldable pub finish_batch : List Row → Outcome UploadResult → List UploadEntry → List UploadEntry
unfolding mark_files mark_failed update_all
finish_batch rows (resolved res) entries =
    mark_failed rows res.failed (mark_files rows res.files entries)
finish_batch rows (rejected e) entries = update_all rows (set_failed none) entries

unfoldable pub progress_all : List Row → List Progress → List UploadEntry → List UploadEntry
unfolding progress
progress_all rows [] entries = entries
progress_all rows (e ∷ es) entries = progress_all rows es (progress rows e entries)

-- `uploadBatch`, where nothing else happens in between.
unfoldable pub upload_batch :
    List Row → List Progress → XhrEnd → List UploadEntry → List UploadEntry × Outcome UploadResult
unfolding begin_batch progress_all finish_batch xhr_result
upload_batch rows events end entries =
    let result = xhr_result end in
    (finish_batch rows result (progress_all rows events (begin_batch rows entries)), result)
