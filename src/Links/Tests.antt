-- ===== src/Links/Tests.antt =====
-- Concrete links, with a number printed as as many strokes.
use Prim.Native.String
use Prim.Native.Char.{code}
use go_drive.Base.{
  leb, if◌then◌else◌, ℕ, zero, suc, String, true, none, some, ◌≡◌, ◌≢◌, refl, get, ap,
}
use go_drive.Links.Form.{AnyLink, share_link, share, form_of}
use go_drive.Links.Bodies.{Json, num, build_update_body}
use go_drive.Links.Hidden.{Same, hidden_lem}
use go_drive.Links.Views.{edit, max_views, file_id, folder_id, shown, event_line, join}
use go_drive.Links.Form.{upload, empty_form}
use go_drive.Links.Dialog.{Untouched, update-Untouched}

abbrev print : ℕ → String
print zero = "."
print (suc n) = String.◌∷◌ "|" (print n)

abbrev strokes : String → ℕ
strokes String.[] = 0
strokes (String.◌∷◌ c s) = let rest = suc (strokes s) in if leb 124 (code c) then rest else 0

abbrev number : String → Json
number s = num (strokes s)

abbrev iso : String → String
iso s = String.◌++◌ s "T00:00:00.000Z"

printed : (n : ℕ) → print n ≢ ""
printed zero = λ e. cc
printed (suc n) = λ e. cc

reread : (n : ℕ) → number (print n) ≡ num n
reread zero = refl
reread (suc n) = ap (λ j. more j) (reread n)
  where
    more : Json → Json
    more (num k) = num (suc k)
    more j = j

abbrev brochure : AnyLink
brochure = share_link (record {
  id = "l1";
  file_id = some "f1";
  folder_id = none;
  token = "abc";
  access = "view";
  expires_at = some "2030-01-31T18:30:00Z";
  max_downloads = some 3;
  download_count = 1;
  is_active = true;
})

update-Untouched_example :
    Untouched print number iso printed reread brochure
      (get (build_update_body number iso share (form_of print share brochure)))
update-Untouched_example = update-Untouched print number iso printed reread brochure

hidden_lem_example :
    Same number iso upload (edit (max_views "3") empty_form) empty_form
    × ((file folder : String)
        → build_update_body number iso upload
            (edit (file_id file) (edit (folder_id folder) empty_form))
          ≡ build_update_body number iso upload empty_form)
unfolding shown
hidden_lem_example = hidden_lem number iso upload (max_views "3") empty_form refl refl

one_part :
    event_line
      (λ s. s)
      (record {
        id = "e1";
        event_type = "view";
        timestamp = "t";
        browser = "Lynx";
        os = "";
        country = "";
      })
    ≡ ("view", ("t", "Lynx"))
unfolding event_line join
one_part = refl
