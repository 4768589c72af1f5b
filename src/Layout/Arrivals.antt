-- ===== src/Layout/Arrivals.antt =====
-- What the files page shows after a search in the top bar or a click on a recent folder:
-- web/src/components/app/AppHeader.tsx and RecentFolders.tsx with web/src/pages/app/FilesPage.tsx.
use go_drive.Base.{
  String, Bool, true, false, not, Option, none, some, Dict, get, truthy, trim, is_blank,
  is_blank-trim, if◌then◌else◌, ◌≡◌, refl, Bool-cases, inl, inr, eq_iff, ◌==◌, ap, ◌∙◌, sym,
}
use go_drive.Files.Batch.{BatchState}
use go_drive.Files.Page.{PageState, open_page, is_searching}
use go_drive.Layout.Header.{search_address, params_of}
use go_drive.Layout.Recent.{folder_address}

-- The files page at an address: opened anew, or, if it is the page that is shown, with the state it
-- has, since `useState` reads its argument once.
unfoldable pub arrive : Dict String → Option String → BatchState → Option PageState → PageState
arrive params stored batch none = open_page params stored batch
arrive params stored batch (some s) = record s { search_params = params }

abbrev query_of : String → Option String
query_of query = if truthy (trim query) then some (trim query) else none

abbrev searches : Option PageState → Bool → Bool
searches none anew = anew
searches (some s) anew = is_searching s

blank_trim : (s : String) → truthy s ≡ false → is_blank s ≡ true
unfolding is_blank
blank_trim s h = elim (Bool-cases (s == "")) [
  | inl y ↦ let e = (eq_iff s "").0 y in rw e refl
  | inr n ↦ cc
]

-- After a search in the top bar the address names the trimmed text, if there is one. A files page that
-- is opened by it shows results exactly if the field was not blank; one that is shown already goes
-- on as before, with results or without. Decoding is taken to undo `encodeURIComponent`.
pub search_lem :
    (encode decode : String → String)
    → ((s : String) → decode (encode s) ≡ s)
    → (query : String) (stored : Option String) (batch : BatchState) (shown : Option PageState)
    → let s' = arrive (params_of decode (search_address encode query)) stored batch shown in
      (get s'.search_params "q" ≡ query_of query)
      × (is_searching s' ≡ searches shown (not (is_blank query)))
unfolding arrive search_address is_searching get is_blank
search_lem encode decode h query stored batch none = elim (Bool-cases (truthy (trim query))) [
  | inl y ↦ rw y (ap some (h (trim query)), rw (h (trim query)) (ap not (is_blank-trim query)))
  | inr n ↦ rw n (refl, ap not (sym (blank_trim (trim query) n) ∙ is_blank-trim query))
]
search_lem encode decode h query stored batch (some s) = elim (Bool-cases (truthy (trim query))) [
  | inl y ↦ rw y (ap some (h (trim query)), refl)
  | inr n ↦ rw n (refl, refl)
]

-- A click on a recent folder: the address names it, and a page with search results keeps them.
pub folder_lem :
    (decode : String → String) (id : String)
    → decode id ≡ id
    → (stored : Option String) (batch : BatchState) (shown : Option PageState)
    → let s' = arrive (params_of decode (folder_address id)) stored batch shown in
      (get s'.search_params "folder" ≡ some id) × (is_searching s' ≡ searches shown false)
unfolding arrive folder_address is_searching get is_blank
folder_lem decode id h stored batch none = (ap some h, refl)
folder_lem decode id h stored batch (some s) = (ap some h, refl)
