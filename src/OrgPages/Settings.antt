-- ===== src/OrgPages/Settings.antt =====
-- The settings of an organization and the choice of one: web/src/pages/OrgSettingsPage.tsx with
-- OrgSettingsQuotaCard.tsx, web/src/pages/OrgsPage.tsx and web/src/components/OrgSwitcher.tsx.
-- The reading and printing of numbers are arguments; quotients are exact.
use Prim.Native.String
use go_drive.Base.{
  ℕ, ◌*◌, ◌/◌, String, Bool, true, false, not, ◌&&◌, ◌||◌, Option, none, some, List, [], ◌∷◌,
  truthy, if◌then◌else◌, ltb, ◌≡◌, refl, or_text, Bool-cases, inl, inr, map, ◌==◌, ◌↔◌,
}
use go_drive.Api.{Response, Outcome, resolved, rejected}
use go_drive.Api.Calls.{number, Call}
use go_drive.Org.{OrgState, Organization, Role, set_current_org, delete_org, deleted, call_api}
use go_drive.Stores.Form.{rounded_gb}
use go_drive.Admin.Users.{Parsed, not_finite, negative, fraction, bytes_of}
use go_drive.Format.{Shown, format_store_bytes}
use go_drive.OrgPages.Members.{Member}

-- The page: the slug of its address, and whether a deletion is on its way.
pub record SettingsPage : Type 0 where
  pub slug : Option String
  pub deleting : Bool

-- What a run of `handleDelete` leaves: the page, the store of the organizations, where it navigates,
-- and how its promise ends.
pub record Deletion : Type 0 where
  pub page : SettingsPage
  pub org : OrgState
  pub navigated : Option String
  pub ended : Outcome (Unit {0})

-- `try { await deleteOrg(slug); navigate('/orgs') } finally { setDeleting(false) }`.
abbrev finished : SettingsPage → OrgState × Outcome (Unit {0}) → Deletion
finished s (org, resolved u) = record {
  page = record s { deleting = false };
  org = org;
  navigated = some "/orgs";
  ended = resolved u;
}
finished s (org, rejected e) = record {
  page = record s { deleting = false };
  org = org;
  navigated = none;
  ended = rejected e;
}

module _ {ℓ} {T : Type ℓ} where
  abbrev delete_slug :
      Option String → Bool → Option (Response T) → SettingsPage → OrgState → Deletion
  delete_slug none confirmed answer s org = record {
    page = s;
    org = org;
    navigated = none;
    ended = resolved tt;
  }
  delete_slug (some slug) confirmed answer s org =
      if not (truthy slug) || not confirmed
      then record { page = s; org = org; navigated = none; ended = resolved tt }
      else finished (record s { deleting = true }) (delete_org slug answer org)

  -- `handleDelete`, with the user's answer to the confirmation and the server's to the request.
  unfoldable pub handle_delete : Bool → Option (Response T) → SettingsPage → OrgState → Deletion
  handle_delete confirmed answer s org = delete_slug s.slug confirmed answer s org

-- What the page shows.
pub data View : Type 0 where
  loading not_found : View
  settings : List (String × Option String × String) → Bool → View

abbrev member_line : Member → String × Option String × String
member_line m = (
  or_text m.name m.user_id,
  if truthy m.email then some m.email else none,
  String.◌++◌ "org.role." m.role,
)

-- The lines of the members, and whether the button that deletes is there: `isOwner`.
unfoldable pub view : Bool → Option (List Member × String) → View
view true answer = loading
view false none = not_found
view false (some (members, role)) = settings (map member_line members) (role == "owner")

-- The card of the quota: what it shows of the usage and the limit, and the width of its bar in
-- percent, rounded down.
pub record QuotaCard : Type 0 where
  pub used : Shown
  pub allocated : Option Shown
  pub percentage : ℕ

abbrev limited : ℕ → Bool
limited limit = ltb 0 limit

-- `Math.min((used / allocated) * 100, 100)`.
abbrev at_most_100 : ℕ → ℕ
at_most_100 n = if ltb n 100 then n else 100

unfoldable pub percentage_of : ℕ → ℕ → ℕ
percentage_of used limit = if limited limit then at_most_100 (used * 100 / limit) else 0

-- `usage?.used ?? 0`.
abbrev used_of : Option ℕ → ℕ
used_of none = 0
used_of (some used) = used

unfoldable pub quota_card : Option ℕ → ℕ → QuotaCard
quota_card usage limit = record {
  used = format_store_bytes (used_of usage);
  allocated = if limited limit then some (format_store_bytes limit) else none;
  percentage = percentage_of (used_of usage) limit;
}

module _ (parse : String → Parsed) (print : ℕ → String) where
  -- The first text of the field.
  unfoldable pub quota_text : ℕ → String
  quota_text limit = if limited limit then print (rounded_gb limit) else ""

  abbrev limit_of : Parsed → Option ℕ
  limit_of not_finite = none
  limit_of negative = none
  limit_of (fraction n d) = some (bytes_of n d)

  -- The button beside it: the limit that it sends, if any.
  unfoldable pub save_quota : String → Option ℕ
  save_quota value = limit_of (parse value)

unfoldable pub quota_call : String → ℕ → Call
quota_call slug limit = record {
  path = String.◌++◌ (String.◌++◌ "/api/orgs/" slug) "/quota";
  method = "PATCH";
  body = ("limit", number limit) ∷ [];
}

-- `handleSelect` of OrgsPage.tsx and `handleSwitch` of OrgSwitcher.tsx: the store and the address.
unfoldable pub handle_select : Bool → Organization → OrgState → OrgState × String
handle_select is_admin org s = (set_current_org (some org) s, if is_admin then "/admin" else "/app")

-- The list of OrgsPage.tsx: none yet, or a card for each.
pub data OrgsView : Type 0 where
  no_orgs : OrgsView
  cards : List (String × String × Role) → OrgsView

unfoldable pub orgs_view : List Organization → OrgsView
orgs_view [] = no_orgs
orgs_view (o ∷ os) = cards (map (λ o. (o.name, o.slug, o.role)) (o ∷ os))

-- What the switcher shows: a button when no organization is current, else a menu whose entries say
-- whether they are the current one.
pub data SwitcherView : Type 0 where
  select_org : SwitcherView
  menu : String → List (Organization × Bool) → SwitcherView

abbrev switcher : List Organization → Option Organization → SwitcherView
switcher os none = select_org
switcher os (some c) = menu c.name (map (λ o. (o, o.id == c.id)) os)

unfoldable pub switcher_view : OrgState → SwitcherView
switcher_view s = switcher s.organizations s.current_org

-- The organization was removed from the store, or else nothing was.
abbrev pub IsSettled : Bool → OrgState → Outcome (Unit {0}) → Deletion → Type 0
IsSettled asked org outcome r =
    (r.page.deleting ≡ false)
    × ((r.navigated ≡ some "/orgs") ↔ ((asked ≡ true) × (outcome ≡ resolved tt)))
    × (r.navigated ≡ none → r.org ≡ org)

module _ {ℓ} {T : Type ℓ} where
  finished-IsSettled :
      (slug : String) (s : SettingsPage) (org : OrgState) (o : Outcome (Option T))
      → IsSettled true org (deleted slug org o).1 (finished s (deleted slug org o))
  unfolding deleted
  finished-IsSettled slug s org (resolved d) = (refl, (λ e. (refl, refl), λ h. refl), λ e. cc)
  finished-IsSettled slug s org (rejected e) = (refl, (λ e. cc, λ h. cc h.1), λ e. refl)

  -- Deleting an organization on its page ends with the button enabled again. The page is left for the
  -- list of organizations exactly when the user confirmed, the address has a slug and the store's own
  -- deletion succeeded; if it is not left, the store of the organizations is as it was.
  pub handle_delete-IsSettled :
      (confirmed : Bool) (answer : Option (Response T)) (slug : String) (org : OrgState)
      → IsSettled
          (truthy slug && confirmed)
          org
          (delete_org slug answer org).1
          (handle_delete confirmed answer (record { slug = some slug; deleting = false }) org)
  unfolding handle_delete delete_org
  handle_delete-IsSettled confirmed answer slug org = elim (Bool-cases (truthy slug)) [
    | inl y ↦ elim (Bool-cases confirmed) [
      | inl c ↦
          rw (y, c)
            (finished-IsSettled slug (record { slug = some slug; deleting = true }) org
              (call_api answer))
      | inr n ↦ rw (y, n) (refl, (λ e. cc, λ h. cc h.0), λ e. refl)
    ]
    | inr n ↦ rw n (refl, (λ e. cc, λ h. cc h.0), λ e. refl)
  ]
