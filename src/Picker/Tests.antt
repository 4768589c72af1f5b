-- ===== src/Picker/Tests.antt =====
-- Concrete files of the picker.
use go_drive.Base.{◌≡◌, refl, some, [], ◌∷◌, List, ◌≤◌, true}
use go_drive.Api.{resolved, rejected, error}
use go_drive.Picker.{
  File, Size, Event, change, events, initial, handle_change, show, canvas_size, compress_to_webp,
  base_name,
}
use go_drive.Picker.Bounds.{canvas_size_lem}
use go_drive.Picker.Addresses.{IsTidy, events-IsTidy}

abbrev photo : File
photo = record { name = "a.png"; mime_type = "image/png" }

abbrev chosen : List Event
chosen = change (some (photo, resolved photo)) ∷ change (some (photo, rejected (error "no"))) ∷ []

chosen-IsTidy : IsTidy (events initial chosen)
chosen-IsTidy = events-IsTidy chosen

-- After a picture that cannot be read, the preview has an address that is revoked.
revoked_preview :
    ((events initial chosen).preview_url ≡ some 0) × ((events initial chosen).live ≡ [])
unfolding events handle_change show
revoked_preview = (refl, refl)

abbrev wide : Size
wide = record { width = 3200; height = 100 }

wide_canvas :
    ((canvas_size 1600 wide).width ≤ 1600)
    × ((canvas_size 1600 wide).height ≤ 1600)
    × ((canvas_size 1600 wide).width ≤ 3200)
    × ((canvas_size 1600 wide).height ≤ 100)
wide_canvas = canvas_size_lem 1600 wide

renamed :
    compress_to_webp (λ s. s) (λ size. true) 1600 photo (resolved wide)
    ≡ resolved (record { name = "a.webp"; mime_type = "image/webp" })
unfolding compress_to_webp base_name canvas_size
renamed = refl
