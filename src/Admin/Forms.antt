-- ===== src/Admin/Forms.antt =====
-- The two forms of web/src/pages/admin/users.tsx: their fields, what the browser lets through, and what
-- is then sent. Which texts are e-mail addresses is the browser's, and an argument.
use go_drive.Base.{
  ℕ, ◌≤◌, String, Bool, true, false, not, ◌&&◌, Option, none, some, List, [], ◌∷◌, get, truthy, leb,
  leb→le, if◌then◌else◌, ◌≡◌, refl, ◌⊎◌, inl, inr, arith,
}
use go_drive.App.Forms.{utf16_length}
use go_drive.Api.Calls.{Json, text}
use go_drive.Admin.Users.{update_user, submit_create, edit_of, call_of}

pub data Kind : Type 0 where
  plain email password : Kind

-- An `Input` of a form.
pub record Field : Type 0 where
  pub name : String
  pub kind : Kind
  pub required : Bool
  pub min_length : ℕ

abbrev pub create_fields : List Field
create_fields =
    record { name = "name"; kind = plain; required = true; min_length = 0 }
    ∷ record { name = "email"; kind = email; required = true; min_length = 0 }
    ∷ record { name = "password"; kind = password; required = true; min_length = 8 }
    ∷ []

abbrev pub edit_fields : List Field
edit_fields =
    record { name = "name"; kind = plain; required = true; min_length = 0 }
    ∷ record { name = "email"; kind = email; required = true; min_length = 0 }
    ∷ record { name = "password"; kind = password; required = false; min_length = 8 }
    ∷ []

-- The password that a request sends has eight UTF-16 units at least.
abbrev pub IsLong : Option Json → Type 0
IsLong (some (text p)) = 8 ≤ utf16_length p
IsLong _ = ⊥

module _ (is_email : String → Bool) where
  abbrev well_typed : Kind → String → Bool
  well_typed email value = is_email value
  well_typed _ value = true

  -- The validation of the HTML standard: an empty value fails only if it is required, and any other
  -- only by its type or its length.
  abbrev accepts : Field → String → Bool
  accepts f value =
      if truthy value
      then well_typed f.kind value && leb f.min_length (utf16_length value)
      else not f.required

  -- Whether the browser submits a form with a value for each field.
  unfoldable pub submits : List Field → List String → Bool
  submits [] values = true
  submits (f ∷ fs) [] = false
  submits (f ∷ fs) (v ∷ vs) = accepts f v && submits fs vs

  password_accepted :
      (required there : Bool) (p : String)
      → truthy p ≡ there
      → accepts
          (record { name = "password"; kind = password; required = required; min_length = 8 })
          p
        ≡ true
      → (there ≡ true × (8 ≤ utf16_length p)) ⊎ (there ≡ false × (required ≡ false))
  password_accepted required true p t h = inl (refl, leb→le 8 (utf16_length p) (rw t at h))
  password_accepted required false p t h = inr (refl, negated required (rw t at h))
    where
      negated : (b : Bool) → not b ≡ true → b ≡ false
      negated b h = ground arith

  third : (a b c : Bool) → (a && (b && (c && true))) ≡ true → c ≡ true
  third a b c h = ground arith

  -- No request of the two forms that the browser lets through carries a password of fewer than eight
  -- UTF-16 units: a creation always has a longer one, and an edit has one or leaves the password out.
  pub passwords_lem :
      (name address p id : String) (checked : Bool)
      → (submits create_fields (name ∷ address ∷ p ∷ []) ≡ true
          → IsLong (get (call_of (submit_create name address p checked)).body "password"))
        × (submits edit_fields (name ∷ address ∷ p ∷ []) ≡ true
            → (get (call_of (update_user id (edit_of name address p))).body "password" ≡ none)
              ⊎ IsLong (get (call_of (update_user id (edit_of name address p))).body "password"))
  unfolding submits submit_create edit_of call_of get
  passwords_lem name address p id checked = (
    λ h. elim (password_accepted true (truthy p) p refl (third _ _ _ h)) [
      | inl long ↦ long.1
      | inr short ↦ cc short.1
    ],
    λ h. elim (password_accepted false (truthy p) p refl (third _ _ _ h)) [
      | inl long ↦ rw long.0 (inr long.1)
      | inr short ↦ rw short.0 (inl refl)
    ],
  )
