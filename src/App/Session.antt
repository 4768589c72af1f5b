-- ===== src/App/Session.antt =====
-- Sequences of events in a tab, over both stores: web/src/App.tsx.
use go_drive.Base.{◌≡◌, Option, none, some, List, [], ◌∷◌, String}
use go_drive.Api.{Response, Outcome, resolved, rejected}
use go_drive.Org.{Organization, OrgState, set_organizations, call_api, choose, restore}
use go_drive.Org.Laws.{
  IsSynced, set_organizations-IsSynced, set_current_org-IsSynced, create_org-IsSynced,
  delete_org-IsSynced,
}
use go_drive.Auth.{Auth, settle, sign_in, sign_up}
use go_drive.App.{
  Client, MeData, boot, Event, load, signing_in, signing_up, signing_out, switching, creating,
  deleting, step, run, refetched, sign_in_client, sign_up_client, load_me, loaded, AuthulaResponse,
}

loaded-IsSynced :
    (c : Client) (r : Outcome (Option MeData)) → IsSynced c.org → IsSynced (loaded c r).org
unfolding loaded
loaded-IsSynced c (resolved (some me)) h = set_organizations-IsSynced _ c.org h
loaded-IsSynced c _ h = set_organizations-IsSynced [] c.org h

settle-IsSynced :
    (c : Client) (me : Option (Response MeData)) (o : Outcome Auth)
    → IsSynced c.org
    → IsSynced (settle (refetched c me) c o).0.org
unfolding load_me
settle-IsSynced c me (resolved s) h = loaded-IsSynced (record c { auth = s }) (call_api me) h
settle-IsSynced c me (rejected e) h = h

step-IsSynced : (c : Client) (e : Event) → IsSynced c.org → IsSynced (step c e).org
unfolding step load_me sign_in_client sign_up_client sign_in sign_up
step-IsSynced c (signing_in answer me) h = settle-IsSynced c me _ h
step-IsSynced c (signing_up answer me) h = settle-IsSynced c me _ h
step-IsSynced c (load answer) h = loaded-IsSynced c (call_api answer) h
step-IsSynced c (switching org) h = set_current_org-IsSynced org c.org
step-IsSynced c (creating answer) h = create_org-IsSynced answer c.org h
step-IsSynced c (deleting slug answer) h = delete_org-IsSynced slug answer c.org h
step-IsSynced c _ h = h

run-IsSynced : (c : Client) (es : List Event) → IsSynced c.org → IsSynced (run c es).org
unfolding run
run-IsSynced c [] h = h
run-IsSynced c (e ∷ es) h = run-IsSynced (step c e) es (step-IsSynced c e h)

-- From a page load on, whatever happens in the tab, the local storage holds the slug of the current
-- organization whenever there is one.
pub boot-IsSynced : (stored : Option String) (es : List Event) → IsSynced (run (boot stored) es).org
boot-IsSynced stored es = run-IsSynced (boot stored) es tt

choose_current :
    (s : OrgState) (current restored : Option Organization) (o : Organization)
    → s.current_org ≡ some o
    → current ≡ some o
    → (choose s current restored).current_org ≡ some o
choose_current s none restored o h k = cc
choose_current s (some c) restored o h k = h

set_organizations_current :
    (orgs : List Organization) (s : OrgState) (o : Organization)
    → s.current_org ≡ some o
    → (set_organizations orgs s).current_org ≡ some o
unfolding set_organizations
set_organizations_current orgs s o h =
    choose_current (record s { organizations = orgs }) s.current_org (restore s.stored orgs) o h h

loaded_current :
    (c : Client) (o : Organization) (r : Outcome (Option MeData))
    → c.org.current_org ≡ some o
    → (loaded c r).org.current_org ≡ some o
unfolding loaded
loaded_current c o (resolved (some me)) h = set_organizations_current _ c.org o h
loaded_current c o _ h = set_organizations_current [] c.org o h

settle_current :
    (c : Client) (o : Organization) (me : Option (Response MeData)) (end : Outcome Auth)
    → c.org.current_org ≡ some o
    → (settle (refetched c me) c end).0.org.current_org ≡ some o
unfolding load_me
settle_current c o me (resolved s) h = loaded_current (record c { auth = s }) o (call_api me) h
settle_current c o me (rejected e) h = h

-- Signing out, and then any signing in, with the refetch of the session that it awaits, and any
-- loading of the session keep the current organization, whoever signs in and whatever organizations
-- the server lists for that user.
pub current_org_survives :
    (c : Client) (o : Organization) (answer : Option (Response AuthulaResponse))
    (refetch me : Option (Response MeData))
    → c.org.current_org ≡ some o
    → (run c (signing_out ∷ signing_in answer refetch ∷ load me ∷ [])).org.current_org ≡ some o
unfolding run step load_me sign_in_client sign_in
current_org_survives c o answer refetch me h =
    loaded_current (step (step c signing_out) (signing_in answer refetch)) o (call_api me)
      (settle_current (step c signing_out) o refetch _ h)
