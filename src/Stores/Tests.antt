-- ===== src/Stores/Tests.antt =====
-- Concrete stores.
use go_drive.Base.{
  true, false, none, some, List, get, inl, [], ◌∷◌, ◌≡◌, refl, In, All, length, filter,
}
use go_drive.Api.{resolved}
use go_drive.Stores.Form.{Store, StoreForm, new_form, create_body}
use go_drive.Stores.Fields.{
  type_credential, choose_provider, fills, credential_keys, credential_fields, is_s3_compatible,
}
use go_drive.Stores.Visible.{shown_keys, sent_credentials, switched_lem}
use go_drive.Stores.Groups.{provider_order, groups, listed, is_shown}
use go_drive.Stores.Partition.{is_known, groups_partition}
use go_drive.Stores.Gdrive.{
  Event, fresh, params, completed, run, on_params, complete, step, on_completed,
}
use go_drive.Stores.Once.{IsOnce, fresh-IsOnce}

abbrev drive : Store
drive = record {
  id = "s1";
  name = "Drive";
  provider = "gdrive";
  status = "pending";
  write_mode = "write";
  ingest_mode = "none";
  read_priority = 100;
  config = [];
  has_credentials = some false;
  quota_used = 500;
  quota_limit = 1500000000;
  provider_quota_limit = 0;
  provider_quota_measured_at = none;
}

abbrev typed : StoreForm
typed = record new_form { credentials = ("secret", " x ") ∷ [] }

abbrev stores : List Store
stores =
    drive
    ∷ record drive { id = "s2"; provider = "local" }
    ∷ record drive { id = "s3"; provider = "ftp" }
    ∷ []

groups_partition_example :
    ((s : Store) → In s stores → is_known provider_order s ≡ true → In s (listed (groups stores)))
    × (length (listed (groups stores)) ≡ length (filter (is_known provider_order) stores))
    × All (λ g. is_shown g ≡ true) (groups stores)
groups_partition_example = groups_partition stores

abbrev returned : Event
returned = params (record { gdrive = some "connected"; state = some "xyz" }) (some "acme")

abbrev twice : List Event
twice = returned ∷ returned ∷ completed (resolved tt) ∷ []

called_once : (run fresh twice).calls ≡ "xyz" ∷ []
unfolding run step on_params complete on_completed
called_once = refl

fresh-IsOnce_example : IsOnce (run fresh twice)
fresh-IsOnce_example = fresh-IsOnce twice

abbrev s3_form : StoreForm
s3_form = record new_form { provider = "s3" }

switched_lem_example :
    let late = fills s3_form (type_credential "accessKeyId" "AK" ∷ choose_provider "gdrive" ∷ []) in
    (In "accessKeyId" (shown_keys late) → ⊥)
    × (get (sent_credentials (create_body late).credentials) "accessKeyId" ≡ some "AK")
unfolding credential_fields credential_keys is_s3_compatible
switched_lem_example = switched_lem s3_form "accessKeyId" "AK" (inl refl) (inl refl)
