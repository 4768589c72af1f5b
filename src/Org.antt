-- ===== src/Org.antt =====
-- The organizations of the user and the current one: web/src/store/org.ts.
pub mod Laws
pub mod Reload
pub mod Slug
mod Tests
use go_drive.Base.{
  String, Bool, true, false, not, Option, none, some, List, [], ◌∷◌, ◌++◌, find, filter, head?,
  ◌==◌, if◌then◌else◌,
}
use go_drive.Api.{Response, Outcome, resolved, rejected, type_error, network_error, api_result}

pub data Role : Type 0 where
  owner admin member : Role

pub record Organization : Type 0 where
  pub id : String
  pub name : String
  pub slug : String
  pub role : Role

-- The store, with the entry `currentOrgSlug` of the browser's local storage.
pub record OrgState : Type 0 where
  pub organizations : List Organization
  pub current_org : Option Organization
  pub stored : Option String

-- A page that loads: the store is empty, the local storage is what it was.
abbrev pub fresh : Option String → OrgState
fresh stored = record { organizations = []; current_org = none; stored = stored }

-- `o.slug === savedSlug`, for a saved slug that may be null.
abbrev has_saved_slug : Option String → Organization → Bool
has_saved_slug none o = false
has_saved_slug (some saved) o = o.slug == saved

-- `orgs.find(…) ?? orgs[0]`.
abbrev pub restore : Option String → List Organization → Option Organization
restore saved orgs = elim (find (has_saved_slug saved) orgs) [ none ↦ head? orgs | some o ↦ some o ]

-- The entry that belongs to a current organization; with none it is removed.
abbrev pub entry : Option Organization → Option String
entry none = none
entry (some o) = some o.slug

-- Nothing is restored where an organization is current, or where there is none to take.
abbrev pub choose : OrgState → Option Organization → Option Organization → OrgState
choose s (some current) restored = s
choose s none none = s
choose s none (some o) = record s { current_org = some o; stored = some o.slug }

unfoldable pub set_organizations : List Organization → OrgState → OrgState
set_organizations orgs s =
    choose (record s { organizations = orgs }) s.current_org (restore s.stored orgs)

unfoldable pub set_current_org : Option Organization → OrgState → OrgState
set_current_org org s = record s { current_org = org; stored = entry org }

-- The state change of `createOrg` once the server has answered with the organization.
unfoldable pub add_org : Organization → OrgState → OrgState
add_org org s = record {
  organizations = s.organizations ++ org ∷ [];
  current_org = some org;
  stored = some org.slug;
}

abbrev pub call_api {ℓ} : {T : Type ℓ} → Option (Response T) → Outcome (Option T)
call_api none = rejected network_error
call_api (some res) = api_result res

-- `createOrg`, after its call: whoever creates an organization is its owner.
unfoldable pub created : OrgState → Outcome (Option Organization) → OrgState × Outcome Organization
unfolding add_org
created s (rejected e) = (s, rejected e)
created s (resolved none) = (s, rejected type_error)
created s (resolved (some o)) =
    (add_org (record o { role = owner }) s, resolved (record o { role = owner }))

unfoldable pub create_org :
    Option (Response Organization) → OrgState → OrgState × Outcome Organization
unfolding created
create_org answer s = created s (call_api answer)

abbrev pub slug_is : String → Organization → Bool
slug_is slug o = o.slug == slug

-- The state change of `deleteOrg`.
abbrev pub next_current : String → Option Organization → List Organization → Option Organization
next_current slug none remaining = none
next_current slug (some o) remaining = if slug_is slug o then head? remaining else some o

unfoldable pub remove_org : String → OrgState → OrgState
remove_org slug s =
    let remaining = filter (λ o. not (slug_is slug o)) s.organizations in
    let current = next_current slug s.current_org remaining in
    record { organizations = remaining; current_org = current; stored = entry current }

-- `deleteOrg`, which changes nothing when the call fails.
unfoldable pub deleted {ℓ} :
    {T : Type ℓ} → String → OrgState → Outcome T → OrgState × Outcome (Unit {0})
unfolding remove_org
deleted slug s (rejected e) = (s, rejected e)
deleted slug s (resolved _) = (remove_org slug s, resolved tt)

unfoldable pub delete_org {ℓ} :
    {T : Type ℓ} → String → Option (Response T) → OrgState → OrgState × Outcome (Unit {0})
unfolding deleted
delete_org slug answer s = deleted slug s (call_api answer)
