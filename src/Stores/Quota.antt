-- ===== src/Stores/Quota.antt =====
-- What an edit without a change sends for a store: web/src/pages/app/stores/StoreFormDialog.tsx.
use go_drive.Base.{
  is_blank, ℕ, ◌+◌, ◌*◌, ◌%◌, ◌≤◌, ◌<◌, ◌≡◌, ◌↔◌, ◌⊎◌, inl, inr, refl, arith, some, true, false,
  Bool, Dict, [], ◌∷◌, String, Bool-cases,
}
use go_drive.Stores.Form.{
  Store, StoreForm, gb, rounded_gb, form_of, quota_bytes, update_body, has_new_credentials,
}

quota_bytes_lem : (n : ℕ) → quota_bytes n ≡ n * gb
unfolding quota_bytes
quota_bytes_lem n = ground arith

-- An edit without a change keeps the limit exactly when it is a whole number of gigabytes; it moves
-- any limit by half a gigabyte at most, and removes a limit below half a gigabyte.
pub update_quota :
    (s : Store)
    → let sent = (update_body (form_of s)).quota_limit in
      ((sent ≡ s.quota_limit) ↔ (s.quota_limit % gb ≡ 0))
      × (2 * sent ≤ 2 * s.quota_limit + gb)
      × (2 * s.quota_limit ≤ 2 * sent + gb)
      × (2 * s.quota_limit < gb → sent ≡ 0)
unfolding update_body form_of
update_quota s = omega (arith, quota_bytes_lem (rounded_gb s.quota_limit))

-- Some value of the credentials is more than white space.
abbrev pub HasText : Dict String → Type 0
HasText [] = ⊥
HasText ((k, v) ∷ rest) = (is_blank v ≡ false) ⊎ HasText rest

has_new_credentials_iff : (c : Dict String) → (has_new_credentials c ≡ true) ↔ HasText c
unfolding has_new_credentials
has_new_credentials_iff [] = (λ e. cc, λ h. absurd h)
has_new_credentials_iff ((k, v) ∷ rest) = elim (Bool-cases (is_blank v)) [
  | inl blank ↦
      rw blank
        (λ e. inr ((has_new_credentials_iff rest).0 e), later ((has_new_credentials_iff rest).1))
  | inr text ↦ rw text (λ e. inl refl, λ h. refl)
]
  where
    later :
        (HasText rest → has_new_credentials rest ≡ true)
        → (◌≡◌ {A = Bool} true false) ⊎ HasText rest
        → has_new_credentials rest ≡ true
    later ih (inl e) = cc
    later ih (inr h) = ih h

-- An edit overwrites the stored credentials exactly when the user typed a value that is more than
-- white space, and then with all that was typed.
pub update_credentials_iff :
    (form : StoreForm)
    → ((update_body form).credentials ≡ some form.credentials) ↔ HasText form.credentials
unfolding update_body
update_credentials_iff form = elim (Bool-cases (has_new_credentials form.credentials)) [
  | inl new ↦ rw new (λ e. (has_new_credentials_iff form.credentials).0 new, λ h. refl)
  | inr old ↦ rw old (λ e. cc, λ h. cc ((has_new_credentials_iff form.credentials).1 h))
]
