-- ===== src/Dashboard/Tests.antt =====
-- Concrete answers of the dashboard.
use go_drive.Base.{ℕ, false→ne, [], ◌∷◌, some, none, ◌≡◌, refl, false, true}
use go_drive.Files.Matching.{begins, begins_iff}
use go_drive.Dashboard.Stale.{
  IsMissed, recent_folders_key, recent_files_key, storage_usage_key, recent_not_invalidated,
}
use go_drive.Dashboard.{section_of, handle_upload, section_of, failed, take}

three_of_four : take {A = ℕ} 3 (1 ∷ 2 ∷ 3 ∷ 4 ∷ []) ≡ 1 ∷ 2 ∷ 3 ∷ []
three_of_four = refl

no_upload : handle_upload [] (some "acme") ≡ none
unfolding handle_upload
no_upload = refl

failed_first : section_of {A = ℕ} 4 false true (1 ∷ []) ≡ failed
unfolding section_of
failed_first = refl

recent_not_invalidated_example :
    IsMissed begins "acme" none (recent_folders_key "acme")
    × IsMissed begins "acme" none (recent_files_key "acme")
    × IsMissed begins "acme" none (storage_usage_key "acme")
recent_not_invalidated_example =
    recent_not_invalidated begins begins_iff "acme" none (false→ne "acme" "recent" refl)
