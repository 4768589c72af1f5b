-- ===== src/Preview/Tests.antt =====
-- A concrete visit of the page of a photo.
use go_drive.Base.{String, List, [], ◌∷◌, ◌≡◌, refl, ◌⊎◌, All, inl, inr}
use go_drive.Api.{resolved}
use go_drive.Preview as Preview
use go_drive.Preview.{Action, acts, initial, viewer, image}
use go_drive.Preview.Issued.{FromToken, IsRight, initial-IsIssued}

abbrev visit : List Action
visit =
    Preview.press_preview
    ∷ Preview.answered_token (resolved "/p/t1")
    ∷ Preview.press_open
    ∷ Preview.press_preview
    ∷ Preview.answered_token (resolved "/p/t2")
    ∷ Preview.answered_download (resolved "https://s3.example.org/x")
    ∷ []

-- The second answer goes to a tab, since the button of the preview is disabled while it is awaited.
shown : viewer "image/png" (acts "https://drive" initial visit) ≡ image "https://drive/p/t1"
unfolding viewer acts Preview.act Preview.handle_preview Preview.handle_open_in_new_tab
    Preview.is_previewable_image Preview.is_previewable_pdf
shown = refl

-- The addresses that the server gave.
abbrev IsToken : String → Type 0
IsToken url = (url ≡ "/p/t1") ⊎ (url ≡ "/p/t2")

abbrev IsDownload : String → Type 0
IsDownload url = url ≡ "https://s3.example.org/x"

initial-IsIssued_example :
    All
      (λ a. FromToken "https://drive" IsToken IsDownload a ⊎ IsDownload a)
      (acts "https://drive" initial visit).opened
    × IsRight "https://drive" IsToken IsDownload "image/png"
        (viewer "image/png" (acts "https://drive" initial visit))
initial-IsIssued_example =
    initial-IsIssued "https://drive" IsToken IsDownload visit "image/png"
      (tt, (inl refl, (tt, (tt, (inr refl, (refl, tt))))))
