-- ===== src/Keys.antt =====
-- The card of the S3 keys: the state, the handlers and the requests of
-- web/src/pages/app/stores/S3KeysCard.tsx, with `copyText` of stores.ts.
pub mod Prompt
pub mod Secret
mod Tests
use Prim.Native.String
use go_drive.Base.{
  String, Bool, true, false, not, ◌||◌, Option, none, some, List, [], ◌∷◌, is_blank, map,
}
use go_drive.Api.{Outcome, resolved, rejected}
use go_drive.Api.Calls.{Json, text, Call}

pub record S3Key : Type 0 where
  pub id : String
  pub access_key_id : String
  pub name : String
  pub permissions : String

-- What the server answers to a creation; the secret is in no other answer.
pub record CreateKeyData : Type 0 where
  pub key : S3Key
  pub access_key_id : String
  pub secret_access_key : String

pub record KeysCard : Type 0 where
  pub key_name : String
  pub key_permissions : String
  pub create_open : Bool
  pub created_data : Option CreateKeyData
  pub delete_target : Option S3Key
  pub show_help : Bool

abbrev pub initial : KeysCard
initial = record {
  key_name = "";
  key_permissions = "readwrite";
  create_open = false;
  created_data = none;
  delete_target = none;
  show_help = false;
}

-- The requests of the two mutations.
pub data KeyRequest : Type 0 where
  create_key : String → String → KeyRequest
  delete_key : String → KeyRequest

unfoldable pub call_of : KeyRequest → Call
call_of (create_key name permissions) = record {
  path = "/api/t/s3-keys";
  method = "POST";
  body = ("name", text name) ∷ ("permissions", text permissions) ∷ [];
}
call_of (delete_key id) = record {
  path = String.◌++◌ "/api/t/s3-keys/" id;
  method = "DELETE";
  body = [];
}

-- `disabled={!keyName.trim() || createKey.isPending}`, and what the two buttons send.
unfoldable pub create_enabled : Bool → KeysCard → Bool
create_enabled pending s = not (is_blank s.key_name || pending)

unfoldable pub create_request : KeysCard → KeyRequest
create_request s = create_key s.key_name s.key_permissions

abbrev delete_of : Option S3Key → Option KeyRequest
delete_of none = none
delete_of (some k) = some (delete_key k.id)

unfoldable pub delete_request : KeysCard → Option KeyRequest
delete_request s = delete_of s.delete_target

-- `onSuccess` of the two mutations, which both reload the list.
unfoldable pub created : CreateKeyData → KeysCard → KeysCard
created d s = record s {
  created_data = some d;
  create_open = false;
  key_name = "";
  key_permissions = "readwrite";
}

unfoldable pub deleted : KeysCard → KeysCard
deleted s = record s { delete_target = none }

-- The items of the list of permissions, and `v ?? 'readwrite'`.
pub data Permission : Type 0 where
  readwrite readonly : Permission

abbrev pub value_of : Option Permission → String
value_of none = "readwrite"
value_of (some readwrite) = "readwrite"
value_of (some readonly) = "readonly"

-- What the visitor does, and the answers to the requests.
pub data Action : Type 0 where
  press_create close_create dismiss_created close_delete open_help close_help : Action
  type_name : String → Action
  choose : Option Permission → Action
  press_delete : S3Key → Action
  answered_create : Outcome CreateKeyData → Action
  answered_delete : Outcome (Unit {0}) → Action

unfoldable pub act : KeysCard → Action → KeysCard
unfolding created deleted
act s press_create = record s { create_open = true }
act s close_create = record s { create_open = false }
act s dismiss_created = record s { created_data = none }
act s close_delete = record s { delete_target = none }
act s open_help = record s { show_help = true }
act s close_help = record s { show_help = false }
act s (type_name value) = record s { key_name = value }
act s (choose item) = record s { key_permissions = value_of item }
act s (press_delete k) = record s { delete_target = some k }
act s (answered_create (resolved d)) = created d s
act s (answered_create (rejected e)) = s
act s (answered_delete (resolved d)) = deleted s
act s (answered_delete (rejected e)) = s

unfoldable pub acts : KeysCard → List Action → KeysCard
acts s [] = s
acts s (a ∷ as') = acts (act s a) as'

-- What the card's list and its dialogs show of keys: names, identifiers and permissions in the list,
-- and the two texts of a created key in its dialog, each with a button that copies it.
pub record KeyLine : Type 0 where
  pub name : String
  pub access_key_id : String
  pub permissions : String

unfoldable pub key_lines : Option (List S3Key) → List KeyLine
key_lines none = []
key_lines (some ks) =
    map
      (λ k. record { name = k.name; access_key_id = k.access_key_id; permissions = k.permissions })
      ks

abbrev texts_of : Option CreateKeyData → List String
texts_of none = []
texts_of (some d) = d.access_key_id ∷ d.secret_access_key ∷ []

unfoldable pub created_texts : KeysCard → List String
created_texts s = texts_of s.created_data

-- `copyText`, over whether the browser's clipboard takes the text, and `copyWithFeedback`: whether an
-- error is shown.
unfoldable pub copy_text {ℓ} : {T : Type ℓ} → Outcome T → Bool
copy_text (resolved d) = true
copy_text (rejected e) = false

unfoldable pub copy_failed {ℓ} : {T : Type ℓ} → Outcome T → Bool
copy_failed o = not (copy_text o)
