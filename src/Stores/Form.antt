-- ===== src/Stores/Form.antt =====
-- A store, the form of its dialog, and the bodies that the dialog sends: lib/types.ts,
-- stores/stores.ts, `openEdit` of StoresPage.tsx and StoreFormDialog.tsx.
-- The quota of the form is a whole number of GB.
use go_drive.Base.{
  is_blank, ℕ, ◌+◌, ◌*◌, ◌/◌, String, Bool, false, not, ◌||◌, Option, none, some, [], ◌∷◌, Dict,
  put, ltb, if◌then◌else◌,
}

pub record Store : Type 0 where
  pub id : String
  pub name : String
  pub provider : String
  pub status : String
  pub write_mode : String
  pub ingest_mode : String
  pub read_priority : ℕ
  pub config : Dict String
  pub has_credentials : Option Bool
  pub quota_used : ℕ
  pub quota_limit : ℕ
  pub provider_quota_limit : ℕ
  pub provider_quota_measured_at : Option String

pub record StoreForm : Type 0 where
  pub name : String
  pub provider : String
  pub write_mode : String
  pub ingest_mode : String
  pub read_priority : ℕ
  pub quota_limit : ℕ
  pub config : Dict String
  pub credentials : Dict String

abbrev pub new_form : StoreForm
new_form = record {
  name = "";
  provider = "local";
  write_mode = "write";
  ingest_mode = "none";
  read_priority = 100;
  quota_limit = 0;
  config = [];
  credentials = [];
}

-- `1024 ** 3`.
abbrev pub gb : ℕ
gb = 1073741824

-- `Math.round(bytesToGB(bytes))`: half a gigabyte and more count as one.
unfoldable pub rounded_gb : ℕ → ℕ
rounded_gb bytes = (2 * bytes + gb) / (2 * gb)

-- `openEdit`.
unfoldable pub form_of : Store → StoreForm
unfolding rounded_gb
form_of s = record {
  name = s.name;
  provider = s.provider;
  write_mode = s.write_mode;
  ingest_mode = s.ingest_mode;
  read_priority = s.read_priority;
  quota_limit = rounded_gb s.quota_limit;
  config = s.config;
  credentials = [];
}

unfoldable pub set_config_field : String → String → StoreForm → StoreForm
set_config_field key value form = record form { config = put form.config key value }

unfoldable pub set_credential_field : String → String → StoreForm → StoreForm
set_credential_field key value form = record form { credentials = put form.credentials key value }

-- `Object.values(credentials).some((v) => v.trim() !== '')`.
unfoldable pub has_new_credentials : Dict String → Bool
unfolding is_blank
has_new_credentials [] = false
has_new_credentials ((k, v) ∷ rest) = not (is_blank v) || has_new_credentials rest

pub record StoreBody : Type 0 where
  pub name : String
  pub provider : String
  pub write_mode : String
  pub ingest_mode : String
  pub read_priority : ℕ
  pub quota_limit : ℕ
  pub config : Dict String
  pub credentials : Option (Dict String)

-- `quotaLimit > 0 ? Math.round(quotaLimit * 1024 ** 3) : 0`.
unfoldable pub quota_bytes : ℕ → ℕ
quota_bytes limit = if ltb 0 limit then limit * gb else 0

unfoldable pub create_body : StoreForm → StoreBody
unfolding quota_bytes
create_body form = record {
  name = form.name;
  provider = form.provider;
  write_mode = form.write_mode;
  ingest_mode = form.ingest_mode;
  read_priority = form.read_priority;
  quota_limit = quota_bytes form.quota_limit;
  config = form.config;
  credentials = some form.credentials;
}

unfoldable pub update_body : StoreForm → StoreBody
unfolding quota_bytes has_new_credentials
update_body form = record {
  name = form.name;
  provider = form.provider;
  write_mode = form.write_mode;
  ingest_mode = form.ingest_mode;
  read_priority = form.read_priority;
  quota_limit = quota_bytes form.quota_limit;
  config = form.config;
  credentials = if has_new_credentials form.credentials then some form.credentials else none;
}
