-- ===== src/Preview/Issued.antt =====
-- Where the addresses come from that the page of a file shows and opens: FilePreviewPage.tsx.
use Prim.Native.String
use go_drive.Base.{
  String, Bool, true, false, ◌||◌, Option, none, some, List, [], ◌∷◌, ◌≡◌, refl, ◌⊎◌, inl, inr, All,
  Bool-cases, starts_with, ◌==◌, eq_iff, truthy, ap, if◌then◌else◌,
}
use go_drive.Api.{resolved, rejected}
use go_drive.Preview.{
  PreviewPage, Action, act, acts, initial, Viewer, no_viewer, hint, pdf, image, viewer, ask,
  use_token, token_pending, is_previewable_image, is_previewable_pdf, handle_preview,
  handle_open_in_new_tab, handle_download,
}
use go_drive.Preview as Preview

module _ (origin : String) (P Q : String → Type 0) where
  -- The server's answers: P holds of the addresses that come with tokens, Q of those to download.
  abbrev pub Answers : Action → Type 0
  Answers (Preview.answered_token (resolved url)) = P url
  Answers (Preview.answered_download (resolved url)) = Q url
  Answers _ = Unit

  -- An address of the page's own origin, with a token.
  abbrev pub FromToken : String → Type 0
  FromToken a = (url : String) × P url × (String.◌++◌ origin url ≡ a)

  abbrev IsFilled : String → Type 0
  IsFilled a = (a ≡ "") ⊎ FromToken a

  abbrev pub IsIssued : PreviewPage → Type 0
  IsIssued s = IsFilled s.preview_url × All (λ a. FromToken a ⊎ Q a) s.opened

  ask-IsIssued : (p : Preview.Purpose) (s : PreviewPage) → IsIssued s → IsIssued (ask p s)
  ask-IsIssued p s h = elim (Bool-cases (token_pending s.token_for)) [
    | inl y ↦ rw y h
    | inr n ↦ rw n h
  ]

  use_token-IsIssued :
      (o : Option Preview.Purpose) (url : String) (s : PreviewPage)
      → P url
      → IsIssued s
      → IsIssued (use_token origin o url s)
  use_token-IsIssued none url s p h = h
  use_token-IsIssued (some Preview.show) url s p h = (inr (url, p, refl), h.1)
  use_token-IsIssued (some Preview.open_tab) url s p h = (h.0, (inl (url, p, refl), h.1))

  act-IsIssued : (s : PreviewPage) (a : Action) → Answers a → IsIssued s → IsIssued (act origin s a)
  unfolding act handle_preview handle_open_in_new_tab handle_download
  act-IsIssued s Preview.press_preview p h = ask-IsIssued Preview.show s h
  act-IsIssued s Preview.press_open p h = ask-IsIssued Preview.open_tab s h
  act-IsIssued s Preview.press_download p h = h
  act-IsIssued s (Preview.answered_token (resolved url)) p h =
      use_token-IsIssued s.token_for url _ p h
  act-IsIssued s (Preview.answered_token (rejected e)) p h = h
  act-IsIssued s (Preview.answered_download (resolved url)) p h = (h.0, (inr p, h.1))
  act-IsIssued s (Preview.answered_download (rejected e)) p h = h

  acts-IsIssued :
      (s : PreviewPage) (as' : List Action)
      → All Answers as'
      → IsIssued s
      → IsIssued (acts origin s as')
  unfolding acts
  acts-IsIssued s [] p h = h
  acts-IsIssued s (a ∷ as') p h = acts-IsIssued (act origin s a) as' p.1 (act-IsIssued s a p.0 h)

  -- What a viewer may hold: an address with a token, and the kind of file that it is made for.
  abbrev pub IsRight : String → Viewer → Type 0
  IsRight mime_type no_viewer = Unit
  IsRight mime_type (hint enabled) = Unit
  IsRight mime_type (pdf a) = FromToken a × (mime_type ≡ "application/pdf")
  IsRight mime_type (image a) = FromToken a × (starts_with mime_type "image/" ≡ true)

  filled : (a : String) → IsFilled a → truthy a ≡ true → FromToken a
  filled a (inl e) t = let b = ap truthy e in cc
  filled a (inr h) t = h

  -- The same with the three tests as variables.
  cases-IsRight :
      (m url : String) (enabled image_type pdf_type there : Bool)
      → starts_with m "image/" ≡ image_type
      → (m == "application/pdf") ≡ pdf_type
      → truthy url ≡ there
      → IsFilled url
      → IsRight m (
          if image_type || pdf_type
          then (if there then (if pdf_type then pdf url else image url) else hint enabled)
          else no_viewer)
  cases-IsRight m url enabled false false there i p t h = tt
  cases-IsRight m url enabled true pdf_type false i p t h = tt
  cases-IsRight m url enabled false true false i p t h = tt
  cases-IsRight m url enabled true true true i p t h =
      (filled url h t, (eq_iff m "application/pdf").0 p)
  cases-IsRight m url enabled false true true i p t h =
      (filled url h t, (eq_iff m "application/pdf").0 p)
  cases-IsRight m url enabled true false true i p t h = (filled url h t, i)

  viewer-IsRight : (m : String) (s : PreviewPage) → IsFilled s.preview_url → IsRight m (viewer m s)
  unfolding viewer is_previewable_image is_previewable_pdf
  viewer-IsRight m s h = cases-IsRight m s.preview_url _ _ _ _ refl refl refl h

  -- Whatever the visitor does and whenever answers come, the page opens and shows only addresses that
  -- the server gave it: a tab has one with a token, on the page's origin, or one to download; and the
  -- viewer one with a token, in a frame for a PDF and as an image for a type of images.
  pub initial-IsIssued :
      (as' : List Action) (mime_type : String)
      → All Answers as'
      → All (λ a. FromToken a ⊎ Q a) (acts origin initial as').opened
        × IsRight mime_type (viewer mime_type (acts origin initial as'))
  initial-IsIssued as' m p =
      let h = acts-IsIssued initial as' p (inl refl, tt) in
      (h.1, viewer-IsRight m (acts origin initial as') h.0)
