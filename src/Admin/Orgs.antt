-- ===== src/Admin/Orgs.antt =====
-- The page of the organizations: the state, the handlers, the requests and the keys of the queries of
-- web/src/pages/admin/organizations.tsx.
use Prim.Native.String
use go_drive.Base.{
  ℕ, String, Bool, true, not, ◌||◌, Option, none, some, List, [], ◌∷◌, ◌++◌, is_blank, ◌≡◌, ◌↔◌,
  refl,
}
use go_drive.Api.Calls.{text, Call}
use go_drive.Files.Cache.{Key, IsPrefix, reaches}
use go_drive.Files.Cache as Cache

pub record AdminOrg : Type 0 where
  pub id : String
  pub name : String
  pub slug : String
  pub created_at : Option String
  pub member_count : Option ℕ
  pub store_count : Option ℕ
  pub gdrive_store_count : Option ℕ
  pub store_capacity : Option ℕ
  pub attached_quota : Option ℕ

pub record OrgsPage : Type 0 where
  pub search : String
  pub rename_target : Option AdminOrg
  pub rename_name : String
  pub members_target : Option AdminOrg
  pub storage_target : Option AdminOrg
  pub delete_target : Option AdminOrg

abbrev pub initial : OrgsPage
initial = record {
  search = "";
  rename_target = none;
  rename_name = "";
  members_target = none;
  storage_target = none;
  delete_target = none;
}

-- A request of the two mutations, by the organization's slug.
pub data OrgRequest : Type 0 where
  rename_org : String → String → OrgRequest
  delete_org : String → OrgRequest

abbrev org_path : String → String
org_path slug = String.◌++◌ "/api/admin/orgs/" slug

unfoldable pub call_of : OrgRequest → Call
call_of (rename_org slug name) = record {
  path = org_path slug;
  method = "PATCH";
  body = ("name", text name) ∷ [];
}
call_of (delete_org slug) = record { path = org_path slug; method = "DELETE"; body = [] }

unfoldable pub open_rename : AdminOrg → OrgsPage → OrgsPage
open_rename o s = record s { rename_target = some o; rename_name = o.name }

-- `disabled={renameOrg.isPending || !renameName.trim()}`.
unfoldable pub rename_enabled : Bool → OrgsPage → Bool
rename_enabled pending s = not (pending || is_blank s.rename_name)

abbrev on_org : Option AdminOrg → (AdminOrg → OrgRequest) → Option OrgRequest
on_org none f = none
on_org (some o) f = some (f o)

-- The buttons of the two dialogs.
unfoldable pub save_rename : OrgsPage → Option OrgRequest
save_rename s = on_org s.rename_target (λ o. rename_org o.slug s.rename_name)

unfoldable pub confirm_delete : OrgsPage → Option OrgRequest
confirm_delete s = on_org s.delete_target (λ o. delete_org o.slug)

unfoldable pub on_success : OrgRequest → OrgsPage → OrgsPage
on_success (rename_org slug name) s = record s { rename_target = none }
on_success (delete_org slug) s = record s { delete_target = none }

-- The queries of the page: the list, and for a dialog that is open its organization's.
abbrev pub orgs_key : Key
orgs_key = Cache.text "admin" ∷ Cache.text "orgs" ∷ []

abbrev pub members_key : String → Key
members_key slug = Cache.text "admin" ∷ Cache.text "orgs" ∷ Cache.text slug ∷ []

abbrev pub storage_key : String → Key
storage_key slug =
    Cache.text "admin" ∷ Cache.text "orgs" ∷ Cache.text slug ∷ Cache.text "storage" ∷ []

-- What is asked for when a dialog is open: `enabled: !!target`.
pub data Query : Type 0 where
  orgs : Query
  members storage : String → Query

abbrev members_of : Option AdminOrg → List Query
members_of none = []
members_of (some o) = members o.slug ∷ []

abbrev storage_of : Option AdminOrg → List Query
storage_of none = []
storage_of (some o) = storage o.slug ∷ []

unfoldable pub queries : OrgsPage → List Query
queries s = orgs ∷ members_of s.members_target ++ storage_of s.storage_target

unfoldable pub key_of : Query → Key
key_of orgs = orgs_key
key_of (members slug) = members_key slug
key_of (storage slug) = storage_key slug

unfoldable pub query_path : Query → String
query_path orgs = "/api/admin/orgs"
query_path (members slug) = org_path slug
query_path (storage slug) = String.◌++◌ (org_path slug) "/storage"

-- What both mutations invalidate.
unfoldable pub invalidated : List Key
invalidated = orgs_key ∷ []

module _ (matches : Key → Key → Bool)
    (documented : (f k : Key) → (matches f k ≡ true) ↔ IsPrefix f k) where
  -- Renaming or deleting an organization refreshes every query of the page: the list, and the members
  -- and the storage of whatever organization is on show.
  pub all_refreshed : (q : Query) → reaches matches invalidated (key_of q) ≡ true
  unfolding invalidated key_of
  all_refreshed orgs = rw ((documented orgs_key orgs_key).1 (refl, (refl, tt))) refl
  all_refreshed (members slug) =
      rw ((documented orgs_key (members_key slug)).1 (refl, (refl, tt))) refl
  all_refreshed (storage slug) =
      rw ((documented orgs_key (storage_key slug)).1 (refl, (refl, tt))) refl

-- Two queries of the page share their cached answer only if they are the same query, so that no
-- dialog shows the members or the storage of another organization.
pub key_of-injective : (p q : Query) → key_of p ≡ key_of q → p ≡ q
unfolding key_of
key_of-injective orgs orgs h = refl
key_of-injective orgs (members b) h = cc
key_of-injective orgs (storage b) h = cc
key_of-injective (members a) orgs h = cc
key_of-injective (members a) (members b) h = cc
key_of-injective (members a) (storage b) h = cc
key_of-injective (storage a) orgs h = cc
key_of-injective (storage a) (members b) h = cc
key_of-injective (storage a) (storage b) h = cc
