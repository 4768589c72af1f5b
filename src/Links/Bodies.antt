-- ===== src/Links/Bodies.antt =====
-- The bodies of the requests: `buildCreateBody` and `buildUpdateBody` of LinksPage.tsx.
-- `Number`, `String` on numbers and `new Date(…).toISOString()` are parameters.
use go_drive.Base.{
  ℕ, String, Bool, Option, none, some, [], Dict, put, put?, truthy, or_text, if◌then◌else◌,
}
use go_drive.Links.Form.{LinkKind, share, upload, tracked, LinkForm}

-- The values of a request body.
pub data Json : Type 0 where
  null : Json
  str : String → Json
  bool : Bool → Json
  num : ℕ → Json

-- `text || null`.
abbrev or_null : String → Json
or_null s = if truthy s then str s else null

-- `text || undefined`, which JSON.stringify leaves out.
abbrev pub given : String → Option Json
given s = if truthy s then some (str s) else none

module _ (number : String → Json) (iso : String → String) where
  -- `if (text) body.key = Number(text)`.
  abbrev pub number_given : String → Option Json
  number_given s = if truthy s then some (number s) else none

  -- `if (form.expiresAt) body.expiresAt = …`.
  abbrev pub date_given : String → Option Json
  date_given s = if truthy s then some (str (iso s)) else none

  abbrev date_or_null : String → Json
  date_or_null s = if truthy s then str (iso s) else null

  unfoldable pub base_body : LinkForm → Dict Json
  base_body form =
      put (put (put [] "name" (str form.name)) "password" (str form.password)) "expiresAt"
        (date_or_null form.expires_at)

  unfoldable pub build_create_body : LinkKind → LinkForm → Dict Json
  unfolding base_body
  build_create_body share form =
      let b = put (base_body form) "access" (str (or_text form.access "download")) in
      let b = put (put b "fileId" (or_null form.file_id)) "folderId" (or_null form.folder_id) in
      put? b "maxDownloads" (number_given form.max_downloads)
  build_create_body upload form =
      let b = put (base_body form) "folderId" (or_null form.folder_id) in
      let b = put? b "maxFiles" (number_given form.max_files) in
      put? b "maxFileSize" (number_given form.max_file_size)
  build_create_body tracked form =
      let b = put (base_body form) "access" (str (or_text form.access "view")) in
      let b = put (put b "fileId" (or_null form.file_id)) "folderId" (or_null form.folder_id) in
      let b =
        put (put b "description" (str form.description)) "requireEmail" (bool form.require_email) in
      put? b "maxViews" (number_given form.max_views)

  unfoldable pub build_update_body : LinkKind → LinkForm → Dict Json
  build_update_body share form =
      let b = put? (put [] "isActive" (bool form.is_active)) "access" (given form.access) in
      let b =
        put? (put? b "password" (given form.password)) "expiresAt" (date_given form.expires_at) in
      put? b "maxDownloads" (number_given form.max_downloads)
  build_update_body upload form =
      let b = put? (put [] "isActive" (bool form.is_active)) "name" (given form.name) in
      let b =
        put? (put? b "password" (given form.password)) "expiresAt" (date_given form.expires_at) in
      let b = put? b "maxFiles" (number_given form.max_files) in
      put? b "maxFileSize" (number_given form.max_file_size)
  build_update_body tracked form =
      let b = put? (put [] "isActive" (bool form.is_active)) "name" (given form.name) in
      let b = put? (put? b "description" (given form.description)) "access" (given form.access) in
      let b = put b "requireEmail" (bool form.require_email) in
      let b =
        put? (put? b "password" (given form.password)) "expiresAt" (date_given form.expires_at) in
      put? b "maxViews" (number_given form.max_views)
