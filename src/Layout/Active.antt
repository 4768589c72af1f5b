-- ===== src/Layout/Active.antt =====
-- Which links of the sidebar are active on which page: web/src/components/app/AppLayout.tsx.
use go_drive.Base.{
  String, Bool, false, List, [], ◌∷◌, map, filter, All, ◌==◌, ◌≡◌, refl, ne_longer, starts_with, ap,
  ◌∙◌,
}
use go_drive.Layout.{
  Place, status, files, stores, members, appearance, notifications, links, activity, api_docs,
  preview, path_of, Entry, nav, highlighted,
}

pub filter-same :
    (p q : Entry → Bool) (es : List Entry) → ((e : Entry) → p e ≡ q e) → filter p es ≡ filter q es
filter-same p q [] h = refl
filter-same p q (e ∷ es) h = rw (h e, filter-same p q es h) refl

filter-none : (p : Entry → Bool) (es : List Entry) → All (λ e. p e ≡ false) es → filter p es ≡ []
filter-none p [] h = refl
filter-none p (e ∷ es) h = rw (h.0, filter-none p es h.1) refl

-- A link for each page of its own; the page of a file and the start page have none.
abbrev label_of : Place → List String
label_of status = []
label_of files = "Files" ∷ []
label_of stores = "Stores" ∷ []
label_of members = "Members" ∷ []
label_of appearance = "Appearance" ∷ []
label_of notifications = "Notifications" ∷ []
label_of links = "Links" ∷ []
label_of activity = "activity.nav" ∷ []
label_of api_docs = "apiDocs.nav" ∷ []
label_of (preview id) = []

longer :
    (id : String) (es : List Entry)
    → All (λ e. starts_with e.to "/app/files/preview/" ≡ false) es
    → All (λ e. (e.to == path_of (preview id)) ≡ false) es
unfolding path_of
longer id [] h = tt
longer id (e ∷ es) h = (ne_longer e.to "/app/files/preview/" id h.0, longer id es h.1)

exact : (p : Place) → highlighted (λ to here. to == here) (path_of p) ≡ label_of p
unfolding highlighted nav path_of
exact status = refl
exact files = refl
exact stores = refl
exact members = refl
exact appearance = refl
exact notifications = refl
exact links = refl
exact activity = refl
exact api_docs = refl
exact (preview id) = ap (map (λ e. e.label)) (
    filter-none (λ e. e.to == path_of (preview id)) nav
      (longer id nav (refl, (refl, (refl, (refl, (refl, (refl, (refl, (refl, (refl, tt)))))))))))

-- If a link is active exactly where it leads to, each page has one active link, but for the page of a
-- file and the start page: the link Home leads to "/", which redirects.
pub highlighted_lem :
    (is_active : String → String → Bool)
    → ((to here : String) → is_active to here ≡ (to == here))
    → (p : Place) → highlighted is_active (path_of p) ≡ label_of p
unfolding highlighted
highlighted_lem is_active h p =
    ap (map (λ e. e.label)) (
      filter-same (λ e. is_active e.to (path_of p)) (λ e. e.to == path_of p) nav
        (λ e. h e.to (path_of p)))
    ∙ exact p
