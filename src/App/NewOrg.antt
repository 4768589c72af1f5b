-- ===== src/App/NewOrg.antt =====
-- The dialog for a new organization: web/src/components/CreateOrgDialog.tsx.
use go_drive.Base.{
  ◌≡◌, ◌≢◌, ◌⊎◌, inl, inr, refl, String, Bool, false, Option, none, some, [], ◌∷◌, ◌++◌,
}
use go_drive.Api.{
  syntax_error, type_error, Response, Failure, error, Outcome, resolved, rejected, network_error,
}
use go_drive.Api.Results.{api_result_message}
use go_drive.Org.{Organization, OrgState, owner, create_org, created, add_org, call_api}
use go_drive.Org.Slug.{slug_of}
use go_drive.App.Forms.{message_of}

pub record NewOrg : Type 0 where
  pub is_open : Bool
  pub name : String
  pub slug : String
  pub message : String
  pub loading : Bool

unfoldable pub handle_name_change : (String → String) → String → NewOrg → NewOrg
unfolding slug_of
handle_name_change lower value s = record s { name = value; slug = slug_of lower value }

-- The slug field, which the user may change afterwards.
unfoldable pub handle_slug_change : String → NewOrg → NewOrg
handle_slug_change value s = record s { slug = value }

module _ (browser : Failure → String) where
  -- What follows the promise of the store, with the `finally`.
  abbrev pub closed : NewOrg → Outcome Organization → NewOrg
  closed s (resolved org) = record {
    is_open = false;
    name = "";
    slug = "";
    message = "";
    loading = false;
  }
  closed s (rejected e) = record s { message = message_of browser e; loading = false }

  unfoldable pub handle_submit :
      Option (Response Organization) → NewOrg → OrgState → NewOrg × OrgState
  handle_submit answer s orgs = let r = create_org answer orgs in (closed s r.1, r.0)

-- The dialog is closed and empty, and a new organization of the user is the current one; or the
-- dialog says what went wrong and nothing else has changed.
abbrev pub IsAnswered : NewOrg → OrgState → NewOrg × OrgState → Type 0
IsAnswered s orgs (s', orgs') =
    (s'.loading ≡ false)
    × (((s'.is_open ≡ false)
          × ((o : Organization) × (o.role ≡ owner)
              × (orgs'.organizations ≡ orgs.organizations ++ o ∷ [])
              × (orgs'.current_org ≡ some o)
              × (orgs'.stored ≡ some o.slug)))
        ⊎ ((s'.is_open ≡ s.is_open)
            × (s'.name ≡ s.name)
            × (s'.slug ≡ s.slug)
            × (s'.message ≢ "")
            × (orgs' ≡ orgs)))

module _ (browser : Failure → String) (told : (e : Failure) → browser e ≢ "") where
  call_api_message :
      (answer : Option (Response Organization)) (e : Failure)
      → call_api answer ≡ rejected e
      → message_of browser e ≢ ""
  call_api_message none (error m) h = cc
  call_api_message (some res) (error m) h = api_result_message res m h
  call_api_message answer syntax_error h = told _
  call_api_message answer type_error h = told _
  call_api_message answer network_error h = told _

  -- Submitting the dialog ends in one of two ways, and the dialog is never left as loading: it is
  -- closed, and the new organization, owned by the user, is listed last, current and stored; or it
  -- stays as it is with a message that is not empty, and the organizations are as they were. The
  -- texts of the browser's own errors are taken not to be empty.
  pub handle_submit-IsAnswered :
      (answer : Option (Response Organization)) (s : NewOrg) (orgs : OrgState)
      → IsAnswered s orgs (handle_submit browser answer s orgs)
  unfolding handle_submit create_org created add_org
  handle_submit-IsAnswered answer s orgs = by_call (call_api answer) (call_api_message answer)
    where
      by_call :
          (called : Outcome (Option Organization))
          → ((e : Failure) → called ≡ rejected e → message_of browser e ≢ "")
          → IsAnswered s orgs (closed browser s (created orgs called).1, (created orgs called).0)
      by_call (rejected e) h = (refl, inr (refl, refl, refl, h e refl, refl))
      by_call (resolved none) h = (refl, inr (refl, refl, refl, told _, refl))
      by_call (resolved (some o)) h =
          (refl, inl (refl, (record o { role = owner }, refl, refl, refl, refl)))
