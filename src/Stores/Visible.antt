-- ===== src/Stores/Visible.antt =====
-- What the dialog of a store sends beside what it shows: StoreFormDialog.tsx.
use mathlib.Core.Path.{subst}
use go_drive.Base.{
  String, Option, none, some, List, [], ◌∷◌, Dict, get, get-put, eq_refl, ◌≡◌, refl, In, map, ap,
  inl, inr, ◌==◌, if◌then◌else◌, ◌∙◌, false→ne, sym,
}
use go_drive.Stores.Form.{StoreForm, create_body}
use go_drive.Stores.Fields.{
  credential_keys, is_s3_compatible, s3_compatible_providers, credential_fields, type_credential,
  choose_provider, fill, fills,
}

-- The credentials of a body that has some.
abbrev pub sent_credentials : Option (Dict String) → Dict String
sent_credentials none = []
sent_credentials (some c) = c

-- The keys of the credentials that the dialog shows for a new store.
abbrev pub shown_keys : StoreForm → List String
shown_keys form = map (λ f. f.key) (credential_fields none form)

s3_keys :
    (provider : String)
    → In provider s3_compatible_providers
    → credential_keys provider ≡ "accessKeyId" ∷ "secretAccessKey" ∷ []
unfolding credential_keys is_s3_compatible
s3_keys provider (inl e) = ap credential_keys (sym e)
s3_keys provider (inr (inl e)) = ap credential_keys (sym e)
s3_keys provider (inr (inr (inl e))) = ap credential_keys (sym e)
s3_keys provider (inr (inr (inr (inl e)))) = ap credential_keys (sym e)
s3_keys provider (inr (inr (inr (inr (inl e))))) = ap credential_keys (sym e)
s3_keys provider (inr (inr (inr (inr (inr (inl e)))))) = ap credential_keys (sym e)
s3_keys provider (inr (inr (inr (inr (inr (inr (inl e))))))) = ap credential_keys (sym e)
s3_keys provider (inr (inr (inr (inr (inr (inr (inr x))))))) = absurd x

-- No key of an S3 store is one of Google Drive's.
not_gdrive :
    (key : String)
    → In key ("accessKeyId" ∷ "secretAccessKey" ∷ [])
    → In key ("clientId" ∷ "clientSecret" ∷ [])
    → ⊥
not_gdrive key (inl e) (inl f) = false→ne "accessKeyId" "clientId" refl (e ∙ sym f)
not_gdrive key (inl e) (inr (inl f)) = false→ne "accessKeyId" "clientSecret" refl (e ∙ sym f)
not_gdrive key (inr (inl e)) (inl f) = false→ne "secretAccessKey" "clientId" refl (e ∙ sym f)
not_gdrive key (inr (inl e)) (inr (inl f)) =
    false→ne "secretAccessKey" "clientSecret" refl (e ∙ sym f)
not_gdrive key (inl e) (inr (inr x)) = absurd x
not_gdrive key (inr (inl e)) (inr (inr x)) = absurd x
not_gdrive key (inr (inr x)) _ = absurd x

-- A credential that is typed into a field on show for a store of an S3 provider is, once Google Drive
-- is chosen instead, in no field on show any more, but the new store is attached with it.
pub switched_lem :
    (form : StoreForm) (key value : String)
    → In form.provider s3_compatible_providers
    → In key (shown_keys form)
    → let late = fills form (type_credential key value ∷ choose_provider "gdrive" ∷ []) in
      (In key (shown_keys late) → ⊥)
      × (get (sent_credentials (create_body late).credentials) key ≡ some value)
unfolding create_body fill fills credential_fields credential_keys is_s3_compatible
switched_lem form key value p h = (
  not_gdrive key (subst (λ ks. In key ks) keys h),
  get-put form.credentials key key value ∙ own key (get form.credentials key),
)
  where
    keys : shown_keys form ≡ "accessKeyId" ∷ "secretAccessKey" ∷ []
    keys = rw (s3_keys form.provider p) refl

    own :
        (key : String) (old : Option String) → (if key == key then some value else old) ≡ some value
    own key old = rw (eq_refl key) refl
