-- ===== src/Upload/Tests.antt =====
-- Concrete batches.
use go_drive.Base.{
  none, some, List, [], ◌∷◌, ◌≡◌, ◌≢◌, refl, true, inl, inr, All, arith, distinct-DistinctBy,
  false→ne,
}
use go_drive.Api.{error, object, resolved, rejected, request_failed}
use go_drive.Upload.{
  UploadEntry, uploading, done, failed, Row, Progress, XhrEnd, load, network_failure, UploadResult,
  upload_batch, xhr_result, load_result,
}
use go_drive.Upload.Failure.{upload_batch_rejected}
use go_drive.Upload.Settled.{upload_batch_settled}
use go_drive.Upload.Shadowed.{status_of, upload_batch_shadowed}
use go_drive.Upload.Bounds.{IsSound, upload_batch-IsSound}

abbrev rows : List Row
rows = record { id = "1"; name = "a.txt" } ∷ record { id = "2"; name = "b.txt" } ∷ []

abbrev halfway : Progress
halfway = record { length_computable = true; loaded = 1; total = 2 }

abbrev result : UploadResult
result = record {
  files = record { name = "a.txt"; id = "f1"; size = 1 } ∷ [];
  failed = record { name = "b.txt"; error = "too large" } ∷ [];
}

abbrev answered : XhrEnd
answered = load 200 (object none (some result))

xhr_result-answered : xhr_result answered ≡ resolved result
unfolding xhr_result load_result
xhr_result-answered = refl

abbrev old_entry : UploadEntry
old_entry = record { id = "0"; name = "a.txt"; percent = 100; status = done; message = none }

network_result : xhr_result network_failure ≡ rejected (error request_failed)
unfolding xhr_result
network_result = refl

failed_batch :
    (upload_batch rows (halfway ∷ []) network_failure []).1 ≡ rejected (error request_failed)
unfolding upload_batch
failed_batch = network_result

upload_batch_rejected_example :
    All (λ x. x.status ≡ failed) (upload_batch rows (halfway ∷ []) network_failure []).0
upload_batch_rejected_example =
    upload_batch_rejected rows (halfway ∷ []) network_failure (error request_failed) failed_batch

upload_batch_settled_example :
    All (λ e. e.status ≢ uploading) (upload_batch rows (halfway ∷ []) answered []).0
upload_batch_settled_example =
    upload_batch_settled rows (halfway ∷ []) answered result
      (distinct-DistinctBy (λ (r : Row). r.name) rows refl) xhr_result-answered
      (inl refl, (inr (inl refl), tt))

upload_batch-IsSound_example : All IsSound (upload_batch rows (halfway ∷ []) answered []).0
upload_batch-IsSound_example = upload_batch-IsSound rows (halfway ∷ []) answered (omega arith, tt)

abbrev twins : List Row
twins = record { id = "1"; name = "a.txt" } ∷ record { id = "2"; name = "a.txt" } ∷ []

upload_batch_shadowed_example :
    status_of "2" (upload_batch twins (halfway ∷ []) answered []).0 ≡ some uploading
upload_batch_shadowed_example =
    upload_batch_shadowed twins (record { id = "2"; name = "a.txt" }) (halfway ∷ []) answered result
      (distinct-DistinctBy (λ (r : Row). r.id) twins refl) (inr (inl refl))
      (record { id = "1"; name = "a.txt" }, refl, false→ne "1" "2" refl) xhr_result-answered
