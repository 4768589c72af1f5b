-- ===== src/Org/Reload.antt =====
-- A page that loads again: `setOrganizations` of web/src/store/org.ts.
use go_drive.Base.{DistinctBy, find-key, ◌≡◌, some, arith, List, In}
use go_drive.Org.{Organization, OrgState, fresh, restore, set_organizations}
use go_drive.Org.Laws.{IsSynced}

-- No two organizations share a slug.
abbrev DistinctSlugs : List Organization → Type 0
DistinctSlugs = DistinctBy (λ o. o.slug)

-- What is in the local storage after the page was used is enough: when a page that loads gets the
-- same organizations again, with distinct slugs, the store is as it was.
pub set_organizations_reload :
    (s : OrgState) (o : Organization)
    → s.current_org ≡ some o
    → IsSynced s
    → In o s.organizations
    → DistinctSlugs s.organizations
    → set_organizations s.organizations (fresh s.stored) ≡ s
unfolding set_organizations
set_organizations_reload s o current synced listed distinct =
    let stored : s.stored ≡ some o.slug = rw current at synced in
    let restored : restore s.stored s.organizations ≡ some o =
      rw stored (rw (find-key (λ q. q.slug) o s.organizations distinct listed, restore)) in
    rw restored (ground arith)
