-- ===== src/Admin/Rows.antt =====
-- What the tables of the administration pages show: web/src/pages/admin/users.tsx and
-- organizations.tsx. The formatting of a date is an argument.
use go_drive.Base.{
  ℕ, String, Bool, true, false, not, Option, none, some, List, [], ◌∷◌, map, if◌then◌else◌, ltb,
  ◌==◌, ◌≡◌, ◌↔◌, refl, truthy, Bool-cases, inl, inr, arith,
}
use go_drive.Api.Calls.{Json, bool}
use go_drive.Format.{Shown, format_store_bytes}
use go_drive.Admin.Listing.{filtered}
use go_drive.Admin.Users.{AdminUser, UsersPage, toggle_admin, call_of, toggling, is_pending}
use go_drive.Admin.Orgs.{AdminOrg, OrgsPage}

-- A limit in bytes, of which zero stands for none.
pub data Limit : Type 0 where
  unlimited : Limit
  limit : Shown → Limit

unfoldable pub limit_shown : ℕ → Limit
limit_shown n = if ltb 0 n then limit (format_store_bytes n) else unlimited

-- A number of bytes that is shown only if it is not zero.
abbrev if_positive : ℕ → Option Shown
if_positive n = if ltb 0 n then some (format_store_bytes n) else none

pub data Toggle : Type 0 where
  grant revoke : Toggle

pub record UserRow : Type 0 where
  pub name : String
  pub email : String
  pub created : String
  pub orgs : ℕ
  pub quota : Limit
  pub allocated : Option Shown
  pub admin_badge : Bool
  pub toggle : Toggle
  pub toggle_enabled : Bool

-- What a page with a query shows of it.
pub data Body (R : Type 0) : Type 0 where
  loading failed empty : Body R
  table : List R → Body R

abbrev table_of {ℓ} : {A : Type ℓ} {R : Type 0} → (A → R) → List A → Body R
table_of f [] = empty
table_of f (x ∷ xs) = table (map f (x ∷ xs))

abbrev body_of {ℓ} : {A : Type ℓ} {R : Type 0} → (A → R) → Bool → Bool → List A → Body R
body_of f true is_error xs = loading
body_of f false true xs = failed
body_of f false false xs = table_of f xs

pub record OrgRow : Type 0 where
  pub name : String
  pub slug : String
  pub members : ℕ
  pub stores : ℕ
  pub gdrive_stores : Option ℕ
  pub capacity : Option Shown
  pub attached : Option Shown
  pub created : String

-- `value ?? 0`.
abbrev or_zero : Option ℕ → ℕ
or_zero none = 0
or_zero (some n) = n

abbrev positive : ℕ → Option ℕ
positive n = if ltb 0 n then some n else none

-- The rows of the dialogs of organizations.tsx: a member, with whether the badge is the owner's, and
-- a store, with whether it is active.
pub record OrgMemberRow : Type 0 where
  pub name : String
  pub email : String
  pub role : String
  pub owner_badge : Bool

pub record OrgMember : Type 0 where
  pub id : String
  pub name : String
  pub email : String
  pub role : String

pub record OrgStore : Type 0 where
  pub id : String
  pub name : String
  pub provider : String
  pub status : String
  pub quota_limit : ℕ

pub record OrgStoreRow : Type 0 where
  pub name : String
  pub provider : String
  pub status : String
  pub active_badge : Bool
  pub quota : Limit

unfoldable pub org_member_row : OrgMember → OrgMemberRow
org_member_row m = record {
  name = m.name;
  email = m.email;
  role = m.role;
  owner_badge = m.role == "owner";
}

unfoldable pub org_store_row : OrgStore → OrgStoreRow
org_store_row s = record {
  name = s.name;
  provider = s.provider;
  status = s.status;
  active_badge = s.status == "active";
  quota = limit_shown s.quota_limit;
}

-- The two dialogs: `!detail || list.length === 0` is shown as an empty list, also after a failure.
abbrev dialog_of : {A R : Type 0} → (A → R) → Bool → Option (List A) → Body R
dialog_of f true detail = loading
dialog_of f false none = empty
dialog_of f false (some xs) = table_of f xs

unfoldable pub members_dialog : Bool → Option (List OrgMember) → Body OrgMemberRow
members_dialog = dialog_of org_member_row

unfoldable pub storage_dialog : Bool → Option (List OrgStore) → Body OrgStoreRow
storage_dialog = dialog_of org_store_row

abbrev flag_field : Bool → List (String × Json)
flag_field b = ("is_admin", bool (not b)) ∷ []

revokes :
    (b : Bool)
    → ((if b then revoke else grant) ≡ revoke) ↔ (flag_field b ≡ ("is_admin", bool false) ∷ [])
revokes true = (λ e. refl, λ e. refl)
revokes false = (λ e. cc, λ e. cc)

grants :
    (b : Bool)
    → ((if b then revoke else grant) ≡ grant) ↔ (flag_field b ≡ ("is_admin", bool true) ∷ [])
grants true = (λ e. cc, λ e. cc)
grants false = (λ e. refl, λ e. refl)

unlimited_iff : (n : ℕ) → (limit_shown n ≡ unlimited) ↔ (n ≡ 0)
unfolding limit_shown
unlimited_iff n = elim (Bool-cases (ltb 0 n)) [
  | inl y ↦ rw y (λ e. cc, λ e. ground arith)
  | inr m ↦ rw m (λ e. ground arith, λ e. refl)
]

module _ (date : String → String) where
  unfoldable pub user_row : UsersPage → AdminUser → UserRow
  user_row s u = record {
    name = u.name;
    email = u.email;
    created = date u.created_at;
    orgs = u.org_count;
    quota = limit_shown u.quota_limit;
    allocated = if_positive u.quota_allocated;
    admin_badge = u.is_admin;
    toggle = if u.is_admin then revoke else grant;
    toggle_enabled = not (is_pending toggling s);
  }

  unfoldable pub users_body : (String → String) → Bool → Bool → UsersPage → Body UserRow
  users_body lower is_loading is_error s =
      body_of (user_row s) is_loading is_error
        (filtered lower (λ u. u.name) (λ u. u.email) s.search s.users)

  -- `formatDate`, of a date that may be missing.
  abbrev date_or_dash : Option String → String
  date_or_dash none = "—"
  date_or_dash (some iso) = if truthy iso then date iso else "—"

  unfoldable pub org_row : AdminOrg → OrgRow
  org_row o = record {
    name = o.name;
    slug = o.slug;
    members = or_zero o.member_count;
    stores = or_zero o.store_count;
    gdrive_stores = positive (or_zero o.gdrive_store_count);
    capacity = if_positive (or_zero o.store_capacity);
    attached = if_positive (or_zero o.attached_quota);
    created = date_or_dash o.created_at;
  }

  unfoldable pub orgs_body :
      (String → String) → Bool → Bool → OrgsPage → List AdminOrg → Body OrgRow
  orgs_body lower is_loading is_error s orgs =
      body_of org_row is_loading is_error (filtered lower (λ o. o.name) (λ o. o.slug) s.search orgs)

  -- A row of the users' table says what its button does: it offers to revoke exactly when the request
  -- takes the flag away, and to grant exactly when it sets it. The quota is shown as unlimited
  -- exactly when it is zero.
  pub user_row-call :
      (s : UsersPage) (u : AdminUser)
      → ((user_row s u).toggle ≡ revoke
          ↔ (call_of (toggle_admin u)).body ≡ ("is_admin", bool false) ∷ [])
        × ((user_row s u).toggle ≡ grant
            ↔ (call_of (toggle_admin u)).body ≡ ("is_admin", bool true) ∷ [])
        × ((user_row s u).quota ≡ unlimited ↔ u.quota_limit ≡ 0)
  unfolding user_row call_of
  user_row-call s u = (revokes u.is_admin, grants u.is_admin, unlimited_iff u.quota_limit)
