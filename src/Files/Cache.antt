-- ===== src/Files/Cache.antt =====
-- The keys of the queries of the files page and what its mutations invalidate: FilesPage.tsx
-- and batchOps.ts. How the query library matches keys is a parameter: by its
-- documentation, an invalidation reaches the queries of which the given key is a prefix.
use go_drive.Base.{
  false→ne, String, Bool, true, false, Option, none, some, List, [], ◌∷◌, any, ◌≡◌, ◌≢◌, ◌↔◌, refl,
  Bool-cases, inl, inr, arith,
}
use go_drive.Files.Search.{SearchFilters}

-- An element of a key.
pub data Part : Type 0 where
  text : String → Part
  null : Part
  filters : SearchFilters → Part

abbrev pub Key : Type 0
Key = List Part

abbrev part_of : Option String → Part
part_of none = null
part_of (some id) = text id

abbrev pub folders_key : String → Option String → Key
folders_key org folder = text "t" ∷ text "folders" ∷ text org ∷ part_of folder ∷ []

abbrev pub files_key : String → Option String → Key
files_key org folder = text "t" ∷ text "files" ∷ text org ∷ part_of folder ∷ []

abbrev pub search_key : String → String → SearchFilters → Key
search_key org query f =
    text "t" ∷ text "files" ∷ text "search" ∷ text org ∷ text query ∷ filters f ∷ []

abbrev pub usage_key : String → Key
usage_key org = text "t" ∷ text "usage" ∷ text org ∷ []

-- `invalidate` of FilesPage.tsx, and that of batchOps.ts.
unfoldable pub invalidate : String → Option String → List Key
invalidate org folder = files_key org folder ∷ folders_key org folder ∷ usage_key org ∷ []

unfoldable pub invalidate_batch : String → List Key
invalidate_batch org =
    (text "t" ∷ text "files" ∷ text org ∷ [])
    ∷ (text "t" ∷ text "folders" ∷ text org ∷ [])
    ∷ usage_key org
    ∷ []

abbrev pub IsPrefix : Key → Key → Type 0
IsPrefix [] key = Unit
IsPrefix (p ∷ ps) [] = ⊥
IsPrefix (p ∷ ps) (q ∷ qs) = (p ≡ q) × IsPrefix ps qs

pub text-injective : {a b : String} → text a ≡ text b → a ≡ b
text-injective h = cc

-- Whether some of the keys reaches a query.
abbrev pub reaches : (Key → Key → Bool) → List Key → Key → Bool
reaches matches fs k = any (λ f. matches f k) fs

folders-ne : ◌≢◌ {A = String} "folders" "files"
folders-ne = false→ne "folders" "files" refl

usage-ne : ◌≢◌ {A = String} "usage" "files"
usage-ne = false→ne "usage" "files" refl

module _ (matches : Key → Key → Bool)
    (documented : (f k : Key) → (matches f k ≡ true) ↔ IsPrefix f k) where
  reached : (f k : Key) → IsPrefix f k → matches f k ≡ true
  reached f k h = (documented f k).1 h

  pub missed : (f k : Key) → (IsPrefix f k → ⊥) → matches f k ≡ false
  missed f k h = elim (Bool-cases (matches f k)) [
    | inl hit ↦ absurd (h ((documented f k).0 hit))
    | inr miss ↦ miss
  ]

  -- A change on the page refreshes the listing of the folder that is shown and the usage, and a batch
  -- operation those of every folder; but neither refreshes the results of a search, which go on
  -- showing what was moved, renamed or deleted. The organization's slug is taken not to be "search".
  pub search_not_invalidated :
      (org : String) (folder other : Option String) (query : String) (f : SearchFilters)
      → org ≢ "search"
      → (reaches matches (invalidate org folder) (files_key org folder) ≡ true)
        × (reaches matches (invalidate org folder) (folders_key org folder) ≡ true)
        × (reaches matches (invalidate org folder) (usage_key org) ≡ true)
        × (reaches matches (invalidate_batch org) (files_key org other) ≡ true)
        × (reaches matches (invalidate_batch org) (folders_key org other) ≡ true)
        × (reaches matches (invalidate org folder) (search_key org query f) ≡ false)
        × (reaches matches (invalidate_batch org) (search_key org query f) ≡ false)
  unfolding invalidate invalidate_batch
  search_not_invalidated org folder other query f h =
      let files = files_key org folder in
      let folders = folders_key org folder in
      let search = search_key org query f in
      let a = reached files files (refl, (refl, (refl, (refl, tt)))) in
      let b = reached folders folders (refl, (refl, (refl, (refl, tt)))) in
      let c = reached (usage_key org) (usage_key org) (refl, (refl, (refl, tt))) in
      let d = reached all_files (files_key org other) (refl, (refl, (refl, tt))) in
      let e = reached all_folders (folders_key org other) (refl, (refl, (refl, tt))) in
      let m = missed files search (λ p. h (text-injective p.1.1.0)) in
      let n = missed folders search (λ p. folders-ne (text-injective p.1.0)) in
      let o = missed (usage_key org) search (λ p. usage-ne (text-injective p.1.0)) in
      let q = missed all_files search (λ p. h (text-injective p.1.1.0)) in
      let r = missed all_folders search (λ p. folders-ne (text-injective p.1.0)) in
      (
        ground arith,
        ground arith,
        ground arith,
        ground arith,
        ground arith,
        ground arith,
        ground arith,
      )
    where
      all_files : Key
      all_files = text "t" ∷ text "files" ∷ text org ∷ []

      all_folders : Key
      all_folders = text "t" ∷ text "folders" ∷ text org ∷ []
