-- ===== src/Links/Form.antt =====
-- Links as the server lists them, and the form of the dialog: the types of web/src/lib/types.ts,
-- web/src/pages/app/links/links.ts, and `openEdit` of LinksPage.tsx.
use go_drive.Base.{
  ℕ, zero, suc, String, Bool, true, false, Option, none, some, if◌then◌else◌, truthy,
}

pub data LinkKind : Type 0 where
  share upload tracked : LinkKind

pub record ShareLink : Type 0 where
  pub id : String
  pub file_id : Option String
  pub folder_id : Option String
  pub token : String
  pub access : String
  pub expires_at : Option String
  pub max_downloads : Option ℕ
  pub download_count : ℕ
  pub is_active : Bool

pub record UploadLink : Type 0 where
  pub id : String
  pub folder_id : Option String
  pub token : String
  pub name : String
  pub max_files : Option ℕ
  pub max_file_size : Option ℕ
  pub expires_at : Option String
  pub is_active : Bool

pub record TrackedLink : Type 0 where
  pub id : String
  pub file_id : Option String
  pub folder_id : Option String
  pub token : String
  pub name : String
  pub description : String
  pub access : String
  pub require_email : Bool
  pub expires_at : Option String
  pub max_views : Option ℕ
  pub view_count : ℕ
  pub download_count : ℕ
  pub is_active : Bool

pub data AnyLink : Type 0 where
  share_link : ShareLink → AnyLink
  upload_link : UploadLink → AnyLink
  tracked_link : TrackedLink → AnyLink

abbrev pub kind_of : AnyLink → LinkKind
kind_of (share_link l) = share
kind_of (upload_link l) = upload
kind_of (tracked_link l) = tracked

abbrev pub id_of : AnyLink → String
id_of (share_link l) = l.id
id_of (upload_link l) = l.id
id_of (tracked_link l) = l.id

pub record LinkForm : Type 0 where
  pub name : String
  pub access : String
  pub file_id : String
  pub folder_id : String
  pub password : String
  pub expires_at : String
  pub max_downloads : String
  pub max_files : String
  pub max_file_size : String
  pub require_email : Bool
  pub max_views : String
  pub description : String
  pub is_active : Bool

abbrev pub empty_form : LinkForm
empty_form = record {
  name = "";
  access = "download";
  file_id = "";
  folder_id = "";
  password = "";
  expires_at = "";
  max_downloads = "";
  max_files = "";
  max_file_size = "";
  require_email = false;
  max_views = "";
  description = "";
  is_active = true;
}

-- `kind === 'tracked' ? 'view' : 'download'`.
abbrev pub default_access : LinkKind → String
default_access tracked = "view"
default_access _ = "download"

-- `text ?? ''`.
abbrev pub or_empty : Option String → String
or_empty none = ""
or_empty (some s) = s

-- `text.slice(0, n)`.
abbrev pub slice_start : ℕ → String → String
slice_start zero s = ""
slice_start (suc n) String.[] = ""
slice_start (suc n) (String.◌∷◌ c s) = String.◌∷◌ c (slice_start n s)

-- `link.expires_at ? link.expires_at.slice(0, 10) : ''`.
abbrev pub date_of : Option String → String
date_of none = ""
date_of (some time) = if truthy time then slice_start 10 time else ""

-- `limit ? String(limit) : ''`, over the numbers' printing.
abbrev pub limit_text : (ℕ → String) → Option ℕ → String
limit_text print none = ""
limit_text print (some zero) = ""
limit_text print (some (suc n)) = print (suc n)

-- The form that `openEdit` loads for a link.
unfoldable pub form_of : (ℕ → String) → LinkKind → AnyLink → LinkForm
form_of print kind (share_link l) = record empty_form {
  access = l.access;
  file_id = or_empty l.file_id;
  folder_id = or_empty l.folder_id;
  expires_at = date_of l.expires_at;
  max_downloads = limit_text print l.max_downloads;
  is_active = l.is_active;
}
form_of print kind (upload_link l) = record empty_form {
  name = l.name;
  access = default_access kind;
  folder_id = or_empty l.folder_id;
  expires_at = date_of l.expires_at;
  max_files = limit_text print l.max_files;
  max_file_size = limit_text print l.max_file_size;
  is_active = l.is_active;
}
form_of print kind (tracked_link l) = record empty_form {
  name = l.name;
  access = l.access;
  file_id = or_empty l.file_id;
  folder_id = or_empty l.folder_id;
  expires_at = date_of l.expires_at;
  require_email = l.require_email;
  max_views = limit_text print l.max_views;
  description = l.description;
  is_active = l.is_active;
}
