-- ===== src/Org/Laws.antt =====
-- What the operations of web/src/store/org.ts keep.
use go_drive.Base.{
  ◌⊎◌, inr, ◌≡◌, ◌≢◌, refl, Option, none, some, arith, List, [], ◌∷◌, All, In, In-filter, filter,
  head?, not, Bool-cases, eq_iff, String, inl, inr, false,
}
use go_drive.Api.{Response, Outcome, resolved, rejected}
use go_drive.Org.{
  Organization, OrgState, restore, choose, entry, slug_is, next_current, set_organizations,
  set_current_org, create_org, remove_org, delete_org, call_api, created, deleted,
}

abbrev Matches : Option Organization → Option String → Type 0
Matches none stored = Unit
Matches (some o) stored = stored ≡ some o.slug

-- The local storage holds the slug of the current organization, if there is one.
abbrev pub IsSynced : OrgState → Type 0
IsSynced s = Matches s.current_org s.stored

abbrev ListedIn : List Organization → Option Organization → Type 0
ListedIn orgs none = Unit
ListedIn orgs (some o) = In o orgs

-- The current organization is one of the user's.
abbrev pub IsListed : OrgState → Type 0
IsListed s = ListedIn s.organizations s.current_org

choose-IsSynced :
    (s : OrgState) (current restored : Option Organization)
    → s.current_org ≡ current
    → Matches current s.stored
    → IsSynced (choose s current restored)
choose-IsSynced s (some c) restored e h = rw e h
choose-IsSynced s none none e h = rw e tt
choose-IsSynced s none (some o) e h = refl

pub set_organizations-IsSynced :
    (orgs : List Organization) (s : OrgState) → IsSynced s → IsSynced (set_organizations orgs s)
unfolding set_organizations
set_organizations-IsSynced orgs s h =
    choose-IsSynced (record s { organizations = orgs }) s.current_org (restore s.stored orgs) refl h

Matches-entry : (current : Option Organization) → Matches current (entry current)
Matches-entry none = tt
Matches-entry (some o) = refl

pub set_current_org-IsSynced :
    (org : Option Organization) (s : OrgState) → IsSynced (set_current_org org s)
unfolding set_current_org
set_current_org-IsSynced org s = Matches-entry org

created-IsSynced :
    (s : OrgState) (r : Outcome (Option Organization)) → IsSynced s → IsSynced (created s r).0
unfolding created
created-IsSynced s (rejected e) h = h
created-IsSynced s (resolved none) h = h
created-IsSynced s (resolved (some o)) h = refl

pub create_org-IsSynced :
    (answer : Option (Response Organization)) (s : OrgState)
    → IsSynced s
    → IsSynced (create_org answer s).0
unfolding create_org
create_org-IsSynced answer s h = created-IsSynced s (call_api answer) h

deleted-IsSynced :
    {T : Type 0} (slug : String) (s : OrgState) (r : Outcome T)
    → IsSynced s
    → IsSynced (deleted slug s r).0
unfolding deleted
deleted-IsSynced slug s (rejected e) h = h
deleted-IsSynced slug s (resolved d) h = Matches-entry _

pub delete_org-IsSynced :
    {T : Type 0} (slug : String) (answer : Option (Response T)) (s : OrgState)
    → IsSynced s
    → IsSynced (delete_org slug answer s).0
unfolding delete_org
delete_org-IsSynced slug answer s h = deleted-IsSynced slug s (call_api answer) h

-- No organization of the list has the slug.
abbrev pub Lacks : String → List Organization → Type 0
Lacks slug = All (λ o. o.slug ≢ slug)

filter-Lacks :
    (slug : String) (orgs : List Organization)
    → Lacks slug (filter (λ o. not (slug_is slug o)) orgs)
filter-Lacks slug [] = tt
filter-Lacks slug (o ∷ orgs) = elim (Bool-cases (slug_is slug o)) [
  | inl same ↦ rw same (filter-Lacks slug orgs)
  | inr other ↦ rw other (λ e. differs e other, filter-Lacks slug orgs)
]
  where
    differs : o.slug ≡ slug → slug_is slug o ≡ false → ⊥
    differs e f = ground (arith, eq_iff o.slug slug)

abbrev pub NotSlug : String → Option Organization → Type 0
NotSlug slug none = Unit
NotSlug slug (some o) = o.slug ≢ slug

head?-NotSlug :
    (slug : String) (orgs : List Organization) → Lacks slug orgs → NotSlug slug (head? orgs)
head?-NotSlug slug [] h = tt
head?-NotSlug slug (o ∷ orgs) h = h.0

next_current-NotSlug :
    (slug : String) (current : Option Organization) (remaining : List Organization)
    → Lacks slug remaining
    → NotSlug slug (next_current slug current remaining)
next_current-NotSlug slug none remaining h = tt
next_current-NotSlug slug (some o) remaining h = elim (Bool-cases (slug_is slug o)) [
  | inl same ↦ rw same (head?-NotSlug slug remaining h)
  | inr other ↦ rw other (λ e. differs e other)
]
  where
    differs : o.slug ≡ slug → slug_is slug o ≡ false → ⊥
    differs e f = ground (arith, eq_iff o.slug slug)

head?-ListedIn : (orgs : List Organization) → ListedIn orgs (head? orgs)
head?-ListedIn [] = tt
head?-ListedIn (o ∷ orgs) = inl refl

next_current-ListedIn :
    (slug : String) (orgs : List Organization) (current : Option Organization)
    → ListedIn orgs current
    → ListedIn
        (filter (λ o. not (slug_is slug o)) orgs)
        (next_current slug current (filter (λ o. not (slug_is slug o)) orgs))
next_current-ListedIn slug orgs none h = tt
next_current-ListedIn slug orgs (some o) h = elim (Bool-cases (slug_is slug o)) [
  | inl same ↦ rw same (head?-ListedIn _)
  | inr other ↦ rw other (In-filter _ o orgs h (rw other))
]

next_current_kept :
    (slug : String) (current : Option Organization) (remaining : List Organization)
    → ListedIn remaining (next_current slug current remaining)
      ⊎ (next_current slug current remaining ≡ current)
next_current_kept slug none remaining = inr refl
next_current_kept slug (some o) remaining = elim (Bool-cases (slug_is slug o)) [
  | inl same ↦ rw same (inl (head?-ListedIn remaining))
  | inr other ↦ rw other (inr refl)
]

-- Deleting an organization leaves no organization with its slug, neither listed nor current; the one
-- that is current afterwards is one of those that are left, unless it was current before.
pub remove_org_lem :
    (slug : String) (s : OrgState)
    → Lacks slug (remove_org slug s).organizations
      × NotSlug slug (remove_org slug s).current_org
      × (IsListed (remove_org slug s) ⊎ ((remove_org slug s).current_org ≡ s.current_org))
unfolding remove_org
remove_org_lem slug s =
    let gone = filter-Lacks slug s.organizations in
    (gone, next_current-NotSlug slug s.current_org _ gone, next_current_kept slug s.current_org _)

-- If the current organization was listed, so is the one that is current after a deletion.
pub remove_org-IsListed : (slug : String) (s : OrgState) → IsListed s → IsListed (remove_org slug s)
unfolding remove_org
remove_org-IsListed slug s h = next_current-ListedIn slug s.organizations s.current_org h
