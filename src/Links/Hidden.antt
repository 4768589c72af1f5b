-- ===== src/Links/Hidden.antt =====
-- The fields of LinkFormDialog.tsx next to the bodies that LinksPage.tsx makes of the form.
use go_drive.Base.{String, Bool, true, false, ◌≡◌, refl}
use go_drive.Links.Form.{LinkKind, share, upload, tracked, LinkForm}
use go_drive.Links.Bodies as Bodies
use go_drive.Links.Bodies.{Json, build_create_body, build_update_body}
use go_drive.Links.Views.{
  Edit, edit, shown, name, access, file_id, folder_id, description, password, expires_at,
  max_downloads, max_files, max_file_size, max_views, require_email, is_active, is_share,
}

-- A share link has no name, but the body has the form's.
abbrev pub is_name : LinkKind → Edit → Bool
is_name kind (name v) = is_share kind
is_name kind e = false

module _ (number : String → Json) (iso : String → String) where
  abbrev pub Same : LinkKind → LinkForm → LinkForm → Type 0
  Same kind f g =
      (build_create_body number iso kind f ≡ build_create_body number iso kind g)
      × (build_update_body number iso kind f ≡ build_update_body number iso kind g)

  hidden-Same :
      (kind : LinkKind) (e : Edit) (form : LinkForm)
      → shown kind true e ≡ false
      → is_name kind e ≡ false
      → Same kind (edit e form) form
  unfolding shown edit build_create_body build_update_body Bodies.base_body
  hidden-Same share (name v) form h k = cc
  hidden-Same share (access v) form h k = cc
  hidden-Same share (file_id v) form h k = cc
  hidden-Same share (max_downloads v) form h k = cc
  hidden-Same share (description v) form h k = (refl, refl)
  hidden-Same share (max_files v) form h k = (refl, refl)
  hidden-Same share (max_file_size v) form h k = (refl, refl)
  hidden-Same share (max_views v) form h k = (refl, refl)
  hidden-Same share (require_email v) form h k = (refl, refl)
  hidden-Same upload (name v) form h k = cc
  hidden-Same upload (access v) form h k = (refl, refl)
  hidden-Same upload (file_id v) form h k = (refl, refl)
  hidden-Same upload (max_downloads v) form h k = (refl, refl)
  hidden-Same upload (description v) form h k = (refl, refl)
  hidden-Same upload (max_files v) form h k = cc
  hidden-Same upload (max_file_size v) form h k = cc
  hidden-Same upload (max_views v) form h k = (refl, refl)
  hidden-Same upload (require_email v) form h k = (refl, refl)
  hidden-Same tracked (name v) form h k = cc
  hidden-Same tracked (access v) form h k = cc
  hidden-Same tracked (file_id v) form h k = cc
  hidden-Same tracked (max_downloads v) form h k = (refl, refl)
  hidden-Same tracked (description v) form h k = cc
  hidden-Same tracked (max_files v) form h k = (refl, refl)
  hidden-Same tracked (max_file_size v) form h k = (refl, refl)
  hidden-Same tracked (max_views v) form h k = cc
  hidden-Same tracked (require_email v) form h k = cc
  hidden-Same kind (folder_id v) form h k = cc
  hidden-Same kind (password v) form h k = cc
  hidden-Same kind (expires_at v) form h k = cc
  hidden-Same kind (is_active v) form h k = cc

  pub update_ignores_place :
      (kind : LinkKind) (file folder : String) (form : LinkForm)
      → build_update_body number iso kind (edit (file_id file) (edit (folder_id folder) form))
        ≡ build_update_body number iso kind form
  unfolding edit build_update_body
  update_ignores_place share file folder form = refl
  update_ignores_place upload file folder form = refl
  update_ignores_place tracked file folder form = refl

  -- A change of a field that the dialog does not show for a kind of links leaves both bodies as they
  -- are, the name of a share link excepted; and while the dialog shows the file and the folder of a
  -- link that is edited, what is entered there is in no update.
  pub hidden_lem :
      (kind : LinkKind) (e : Edit) (form : LinkForm)
      → shown kind true e ≡ false
      → is_name kind e ≡ false
      → Same kind (edit e form) form
        × ((file folder : String)
            → build_update_body number iso kind (edit (file_id file) (edit (folder_id folder) form))
              ≡ build_update_body number iso kind form)
  hidden_lem kind e form h k =
      (hidden-Same kind e form h k, λ file folder. update_ignores_place kind file folder form)
