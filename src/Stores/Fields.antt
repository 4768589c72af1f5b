-- ===== src/Stores/Fields.antt =====
-- The fields of the dialog of a store and what changes them: web/src/pages/app/stores/StoreFormDialog.tsx.
use go_drive.Base.{
  ℕ, String, Bool, true, false, Option, none, some, List, [], ◌∷◌, ◌++◌, Dict, get, any, ◌==◌,
  if◌then◌else◌, map,
}
use go_drive.Stores.Form.{Store, StoreForm, set_config_field, set_credential_field}

abbrev pub s3_compatible_providers : List String
s3_compatible_providers = "s3" ∷ "b2" ∷ "wasabi" ∷ "spaces" ∷ "hetzner" ∷ "idrivee2" ∷ "storj" ∷ []

-- `S3_COMPATIBLE_PROVIDERS.has(provider)`.
unfoldable pub is_s3_compatible : String → Bool
is_s3_compatible provider = any (λ p. p == provider) s3_compatible_providers

-- The keys of the fields that the dialog shows for a provider, in their order.
unfoldable pub config_keys : String → List String
config_keys provider =
    (if provider == "local" then "baseDir" ∷ "publicUrl" ∷ [] else [])
    ++ (if is_s3_compatible provider then "bucket" ∷ "region" ∷ "endpoint" ∷ [] else [])
    ++ (if provider == "gdrive" then "folderId" ∷ [] else [])

unfoldable pub credential_keys : String → List String
credential_keys provider =
    (if is_s3_compatible provider then "accessKeyId" ∷ "secretAccessKey" ∷ [] else [])
    ++ (if provider == "gdrive" then "clientId" ∷ "clientSecret" ∷ [] else [])

-- The help that goes with a provider.
pub data Help : Type 0 where
  local_help gdrive_help : Help

unfoldable pub helps : String → List Help
helps provider =
    (if provider == "local" then local_help ∷ [] else [])
    ++ (if provider == "gdrive" then gdrive_help ∷ [] else [])

-- `value ?? ''`.
abbrev or_empty : Option String → String
or_empty none = ""
or_empty (some s) = s

-- A field as it is shown; a credential says whether the store has some already.
pub record Shown : Type 0 where
  pub key : String
  pub value : String
  pub masked : Bool

abbrev shown_fields : Bool → Dict String → List String → List Shown
shown_fields masked o keys =
    map (λ k. record { key = k; value = or_empty (get o k); masked = masked }) keys

-- `!!editTarget?.has_credentials`.
abbrev flag : Option Bool → Bool
flag none = false
flag (some b) = b

unfoldable pub credentials_saved : Option Store → Bool
credentials_saved none = false
credentials_saved (some s) = flag s.has_credentials

unfoldable pub config_fields : StoreForm → List Shown
config_fields form = shown_fields false form.config (config_keys form.provider)

unfoldable pub credential_fields : Option Store → StoreForm → List Shown
credential_fields target form =
    shown_fields (credentials_saved target) form.credentials (credential_keys form.provider)

-- The lists of choices; the provider can be chosen only for a new store.
abbrev pub providers : List String
providers =
    "local" ∷ "s3" ∷ "b2" ∷ "wasabi" ∷ "spaces" ∷ "hetzner" ∷ "idrivee2" ∷ "storj" ∷ "gdrive" ∷ []

abbrev pub write_modes : List String
write_modes = "write" ∷ "writeonly" ∷ "none" ∷ []

abbrev pub ingest_modes : List String
ingest_modes = "none" ∷ "poll" ∷ "webhook" ∷ []

abbrev pub provider_enabled : Option Store → Bool
provider_enabled none = true
provider_enabled (some s) = false

-- What a user changes in the dialog.
pub data Edit : Type 0 where
  type_name choose_provider choose_write_mode choose_ingest_mode : String → Edit
  type_config type_credential : String → String → Edit
  type_priority type_quota : ℕ → Edit

unfoldable pub fill : StoreForm → Edit → StoreForm
unfolding set_config_field set_credential_field
fill form (type_name value) = record form { name = value }
fill form (choose_provider value) = record form { provider = value }
fill form (choose_write_mode value) = record form { write_mode = value }
fill form (choose_ingest_mode value) = record form { ingest_mode = value }
fill form (type_config key value) = set_config_field key value form
fill form (type_credential key value) = set_credential_field key value form
fill form (type_priority value) = record form { read_priority = value }
fill form (type_quota value) = record form { quota_limit = value }

unfoldable pub fills : StoreForm → List Edit → StoreForm
fills form [] = form
fills form (e ∷ es) = fills (fill form e) es
