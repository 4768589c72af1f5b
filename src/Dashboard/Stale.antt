-- ===== src/Dashboard/Stale.antt =====
-- The queries of the sidebar and of the dashboard next to what the files page invalidates:
-- web/src/components/app/RecentFolders.tsx and web/src/pages/app/dashboard/ with FilesPage.tsx and
-- batchOps.ts.
use go_drive.Base.{◌==◌, String, Bool, true, false, Option, [], ◌∷◌, ◌≡◌, ◌≢◌, ◌↔◌, refl, false→ne}
use go_drive.Files.Cache.{
  Key, text, IsPrefix, reaches, invalidate, invalidate_batch, files_key, folders_key, usage_key,
  missed, text-injective,
}

abbrev pub recent_folders_key : String → Key
recent_folders_key org = text "t" ∷ text "folders" ∷ text "recent" ∷ text org ∷ []

abbrev pub recent_files_key : String → Key
recent_files_key org = text "t" ∷ text "files" ∷ text "recent" ∷ text org ∷ []

abbrev pub storage_usage_key : String → Key
storage_usage_key org = text "t" ∷ text "storage" ∷ text "usage" ∷ text org ∷ []

-- Neither the invalidation after a change on the files page nor that after a batch operation has a
-- prefix of the key.
abbrev pub IsMissed : (Key → Key → Bool) → String → Option String → Key → Type 0
IsMissed matches org folder k =
    (reaches matches (invalidate org folder) k ≡ false)
    × (reaches matches (invalidate_batch org) k ≡ false)

text-ne : (s t : String) → (s == t) ≡ false → text s ≡ text t → ⊥
text-ne s t h e = false→ne s t h (text-injective e)

module _ (matches : Key → Key → Bool)
    (documented : (f k : Key) → (matches f k ≡ true) ↔ IsPrefix f k) where
  by_parts :
      (org : String) (folder : Option String) (k : Key)
      → (IsPrefix (files_key org folder) k → ⊥)
      → (IsPrefix (folders_key org folder) k → ⊥)
      → (IsPrefix (text "t" ∷ text "files" ∷ text org ∷ []) k → ⊥)
      → (IsPrefix (text "t" ∷ text "folders" ∷ text org ∷ []) k → ⊥)
      → (IsPrefix (usage_key org) k → ⊥)
      → IsMissed matches org folder k
  unfolding invalidate invalidate_batch
  by_parts org folder k a b c d e = (
    rw
        (
          missed matches documented _ k a,
          missed matches documented _ k b,
          missed matches documented _ k e,
        )
        refl,
    rw
        (
          missed matches documented _ k c,
          missed matches documented _ k d,
          missed matches documented _ k e,
        )
        refl,
  )

  -- If an invalidation reaches the queries of which its key is a prefix, neither a change on the files
  -- page nor a batch operation refreshes the recent folders, the recent files, or the usage on the
  -- dashboard. The organization's slug is taken not to be "recent".
  pub recent_not_invalidated :
      (org : String) (folder : Option String)
      → org ≢ "recent"
      → IsMissed matches org folder (recent_folders_key org)
        × IsMissed matches org folder (recent_files_key org)
        × IsMissed matches org folder (storage_usage_key org)
  recent_not_invalidated org folder h = (
    by_parts org folder (recent_folders_key org) (λ p. text-ne "files" "folders" refl p.1.0)
        (λ p. h (text-injective p.1.1.0)) (λ p. text-ne "files" "folders" refl p.1.0)
        (λ p. h (text-injective p.1.1.0)) (λ p. text-ne "usage" "folders" refl p.1.0),
    by_parts org folder (recent_files_key org) (λ p. h (text-injective p.1.1.0))
        (λ p. text-ne "folders" "files" refl p.1.0) (λ p. h (text-injective p.1.1.0))
        (λ p. text-ne "folders" "files" refl p.1.0) (λ p. text-ne "usage" "files" refl p.1.0),
    by_parts org folder (storage_usage_key org) (λ p. text-ne "files" "storage" refl p.1.0)
        (λ p. text-ne "folders" "storage" refl p.1.0) (λ p. text-ne "files" "storage" refl p.1.0)
        (λ p. text-ne "folders" "storage" refl p.1.0) (λ p. text-ne "usage" "storage" refl p.1.0),
  )
